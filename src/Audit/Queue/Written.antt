-- ===== src/Audit/Queue/Written.antt =====
-- The rows that the goroutine writes once Close has closed the channel, when it runs alone.
use mathlib.Core.List.{append-nil, append_assoc}
use kauth_go.Prelude.{
  ℕ, zero, suc, ◌+◌, ◌*◌, ◌≤◌, ◌≡◌, refl, sym, ◌∙◌, Bool, true, false, List, [], ◌∷◌, ◌++◌, length,
}
use kauth_go.Env.{Env}
use kauth_go.Audit.Queue.{
  QueuedEvent, InsertAuditEventParams, Writer, waiting, exited, holding, writing, AuditService,
  params, write, receive, look_at_stop, advance_from, advance,
}
use kauth_go.Audit.Queue.Fifo.{Run}
use kauth_go.Audit.Queue.Drain.{drain, close_drains}

module _ (env : Env) (now : ℕ → ℕ) where
  -- The rows of events of which the first is written at step k: each has the clock of its own step,
  -- and three steps lie between one and the next.
  abbrev pub written_from : ℕ → List QueuedEvent → List InsertAuditEventParams
  written_from k [] = []
  written_from k (e ∷ es) = params env (now k) e ∷ written_from (suc (suc (suc k))) es

  -- The rows that are still to come at step k.
  abbrev pub due : ℕ → Writer → List QueuedEvent → List InsertAuditEventParams
  due k waiting ch = written_from (suc (suc k)) ch
  due k (holding e) ch = written_from (suc k) (e ∷ ch)
  due k (writing e) ch = written_from k (e ∷ ch)
  due k exited ch = []

  abbrev pending : ℕ → AuditService → List InsertAuditEventParams
  pending k s = s.rows ++ due k s.writer s.ch

  IsWritten : ℕ → AuditService → ℕ → AuditService → Type 0
  IsWritten k s k' s' = (s'.stop ≡ false) × (pending k' s' ≡ pending k s)

  receive-IsWritten :
      (k : ℕ) (ch : List QueuedEvent) (b : Bool) (s : AuditService)
      → s.ch ≡ ch
      → s.writer ≡ waiting
      → s.stop ≡ false
      → IsWritten k s (suc k) (receive env ch b s)
  unfolding receive IsWritten
  receive-IsWritten k (e ∷ rest) b s is_ch is_wr go = (go, rw (is_wr, is_ch) refl)
  receive-IsWritten k [] true s is_ch is_wr go = (go, rw (is_wr, is_ch) refl)
  receive-IsWritten k [] false s is_ch is_wr go = (go, rw (is_wr, is_ch) refl)

  look-IsWritten :
      (k : ℕ) (b : Bool) (e : QueuedEvent) (s : AuditService)
      → s.writer ≡ holding e
      → b ≡ false
      → s.stop ≡ false
      → IsWritten k s (suc k) (look_at_stop env b e s)
  unfolding look_at_stop IsWritten
  look-IsWritten k false e s is_wr is_false go = (go, rw (is_wr) refl)
  look-IsWritten k true e s is_wr is_false go = cc

  advance-IsWritten :
      (k : ℕ) (wr : Writer) (s : AuditService)
      → s.writer ≡ wr
      → s.stop ≡ false
      → IsWritten k s (suc k) (advance_from env (now k) false wr s)
  unfolding advance_from write IsWritten
  advance-IsWritten k waiting s is_wr go = receive-IsWritten k s.ch s.closed s refl is_wr go
  advance-IsWritten k (holding e) s is_wr go = look-IsWritten k s.stop e s is_wr go go
  advance-IsWritten k (writing e) s is_wr go = (
    go,
    rw (is_wr)
        (append_assoc s.rows (params env (now k) e ∷ []) (written_from (suc (suc (suc k))) s.ch)),
  )
  advance-IsWritten k exited s is_wr go = (go, rw (is_wr) refl)

  -- What is due before some steps is due, or written, after them.
  drain-pending :
      (k n : ℕ) (s s' : AuditService)
      → s.stop ≡ false
      → drain env now (λ _. false) k n s ≡ s'
      → s'.writer ≡ exited
      → s'.rows ≡ pending k s
  unfolding drain advance IsWritten
  drain-pending k zero s s' go same ends = rw (same, ends) (sym (append-nil s'.rows))
  drain-pending k (suc n) s s' go same ends =
      let (go', kept) = advance-IsWritten k s.writer s refl go in
      drain-pending (suc k) n (advance env (now k) false s) s' go' same ends ∙ kept

  -- When Close has closed the channel of a service and does not give up, and no insertion fails,
  -- then three steps for each event of the channel and three more leave audit_events with a row for
  -- the event in hand and for each event of the channel, in order, behind the rows it had; each row
  -- has the time that the clock shows at the step that writes it.
  pub close_writes :
      (k n : ℕ) {s : AuditService} {a d : List QueuedEvent}
      → Run env s a d
      → s.closed ≡ true
      → s.stop ≡ false
      → 3 * length s.ch + 3 ≤ n
      → (drain env now (λ _. false) k n s).rows ≡ s.rows ++ due k s.writer s.ch
  close_writes k n {s} {a} {d} r c go h =
      drain-pending k n s (drain env now (λ _. false) k n s) go refl
        (close_drains env now (λ _. false) k n r c h).0
