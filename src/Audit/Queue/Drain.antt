-- ===== src/Audit/Queue/Drain.antt =====
-- What the goroutine makes of the queue once Close has closed the channel, when it runs alone.
use mathlib.Core.List.{append-nil}
use mathlib.Core.Path.{subst}
use kauth_go.Prelude.{
  ℕ, zero, suc, ◌+◌, ◌*◌, ◌≤◌, ◌≡◌, refl, sym, ◌∙◌, Bool, true, false, List, [], ◌∷◌, ◌++◌, length,
  arith,
}
use kauth_go.Env.{Env}
use kauth_go.Audit.Queue.{
  QueuedEvent, Writer, waiting, exited, holding, writing, AuditService, write, receive,
  look_at_stop, advance_from, advance, Action, advances, perform,
}
use kauth_go.Audit.Queue.Fifo.{accepted, settled, Run, runs, IsQueue, Run-IsQueue}

-- The steps that are left until the goroutine ends, when nothing stops it.
abbrev left : Writer → List QueuedEvent → ℕ
left waiting ch = 3 * length ch + 1
left exited ch = 0
left (holding _) ch = 3 * length ch + 3
left (writing _) ch = 3 * length ch + 2

left-most : (wr : Writer) (ch : List QueuedEvent) (n : ℕ) → 3 * length ch + 3 ≤ n → left wr ch ≤ n
left-most waiting ch n h = omega arith
left-most exited ch n h = omega arith
left-most (holding _) ch n h = h
left-most (writing _) ch n h = omega arith

left-exited : (wr : Writer) (ch : List QueuedEvent) → left wr ch ≤ 0 → wr ≡ exited
left-exited waiting ch h = absurd (omega arith)
left-exited exited ch h = refl
left-exited (holding _) ch h = absurd (omega arith)
left-exited (writing _) ch h = absurd (omega arith)

settled_all :
    (s : AuditService) (a d : List QueuedEvent) → IsQueue s a d → s.writer ≡ exited → d ≡ a
settled_all s a d q ends = sym (q.fifo ∙ rw (ends, (q.ended ends).1) (append-nil d))

module _ (env : Env) where
  -- The goroutine's next n steps, numbered from k: `now` is the clock at each of them, and `failed`
  -- says whether an insertion at it fails.
  unfoldable pub drain : (now : ℕ → ℕ) (failed : ℕ → Bool) (k n : ℕ) → AuditService → AuditService
  drain now failed k zero s = s
  drain now failed k (suc n) s = drain now failed (suc k) n (advance env (now k) (failed k) s)

  abbrev IsShorter : ℕ → AuditService → Type 0
  IsShorter n s = (s.closed ≡ true) × (left s.writer s.ch ≤ n)

  receive-IsShorter :
      (n : ℕ) (ch : List QueuedEvent) (b : Bool) (s : AuditService)
      → s.closed ≡ true
      → b ≡ true
      → left waiting ch ≤ suc n
      → IsShorter n (receive env ch b s)
  unfolding receive
  receive-IsShorter n (e ∷ rest) b s c is_true h = (c, omega arith)
  receive-IsShorter n [] true s c is_true h = (c, omega arith)
  receive-IsShorter n [] false s c is_true h = cc

  look-IsShorter :
      (n : ℕ) (b : Bool) (e : QueuedEvent) (s : AuditService)
      → s.closed ≡ true
      → 3 * length s.ch + 3 ≤ suc n
      → IsShorter n (look_at_stop env b e s)
  unfolding look_at_stop
  look-IsShorter n true e s c h = (c, omega arith)
  look-IsShorter n false e s c h = (c, omega arith)

  advance-IsShorter :
      (now : ℕ) (failed : Bool) (n : ℕ) (wr : Writer) (s : AuditService)
      → s.writer ≡ wr
      → s.closed ≡ true
      → left wr s.ch ≤ suc n
      → IsShorter n (advance_from env now failed wr s)
  unfolding advance_from write
  advance-IsShorter now failed n waiting s is_wr c h = receive-IsShorter n s.ch s.closed s c c h
  advance-IsShorter now failed n (holding e) s is_wr c h = look-IsShorter n s.stop e s c h
  advance-IsShorter now true n (writing e) s is_wr c h = (c, omega arith)
  advance-IsShorter now false n (writing e) s is_wr c h = (c, omega arith)
  advance-IsShorter now failed n exited s is_wr c h = (c, rw (is_wr) (omega arith))

  drain-exited :
      (now : ℕ → ℕ) (failed : ℕ → Bool) (k n : ℕ) (s : AuditService)
      → IsShorter n s
      → (drain now failed k n s).writer ≡ exited
  unfolding drain advance
  drain-exited now failed k zero s (c, h) = left-exited s.writer s.ch h
  drain-exited now failed k (suc n) s (c, h) =
      drain-exited now failed (suc k) n (advance env (now k) (failed k) s)
        (advance-IsShorter (now k) (failed k) n s.writer s refl c h)

  -- The goroutine alone accepts nothing.
  drain-Run :
      (now : ℕ → ℕ) (failed : ℕ → Bool) (k n : ℕ) {s : AuditService} {a d : List QueuedEvent}
      → Run env s a d
      → (d' : List QueuedEvent) × Run env (drain now failed k n s) a d'
  unfolding drain perform accepted
  drain-Run now failed k zero {s} {a} {d} r = (d, r)
  drain-Run now failed k (suc n) {s} {a} {d} r = drain-Run now failed (suc k) n (
      subst (λ l. Run env (advance env (now k) (failed k) s) l (d ++ settled env c s))
        (append-nil a) (runs c r))
    where
      c : Action env
      c = advances (now k) (failed k)

  -- When Close has closed the channel of a service, three steps for each event of the channel and
  -- three more bring the goroutine to its end, whichever insertions fail and whether or not Close
  -- gives up; it is then done with every event that was accepted, each once and in order.
  pub close_drains :
      (now : ℕ → ℕ) (failed : ℕ → Bool) (k n : ℕ) {s : AuditService} {a d : List QueuedEvent}
      → Run env s a d
      → s.closed ≡ true
      → 3 * length s.ch + 3 ≤ n
      → ((drain now failed k n s).writer ≡ exited) × Run env (drain now failed k n s) a a
  close_drains now failed k n {s} {a} {d} r c h =
      let (d', r') = drain-Run now failed k n r in
      let ends = drain-exited now failed k n s (c, left-most s.writer s.ch n h) in
      (
        ends,
        subst (λ l. Run env (drain now failed k n s) a l)
            (settled_all (drain now failed k n s) a d' (Run-IsQueue env r') ends) r',
      )
