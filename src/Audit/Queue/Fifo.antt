-- ===== src/Audit/Queue/Fifo.antt =====
-- What the queue keeps, in what order, and how long it gets.
use mathlib.Core.List.{append-nil, append_assoc}
use mathlib.Core.Path.{subst}
use kauth_go.Prelude.{
  ℕ, suc, ◌+◌, ◌≤◌, ◌≡◌, refl, sym, ap, ◌∙◌, Bool, true, false, not, ◌&&◌, ◌||◌, List, [], ◌∷◌,
  ◌++◌, ltb, length, arith, if◌then◌else◌,
}
use kauth_go.Env.{Env}
use kauth_go.Audit.Queue.{
  QueuedEvent, InsertAuditEventParams, Writer, waiting, exited, holding, writing, AuditService,
  new_service, has_room, offer, drop, write, receive, look_at_stop, advance_from, Action, logs,
  log_syncs, closes, gives_up, advances, perform,
}

abbrev only : Bool → QueuedEvent → List QueuedEvent
only true e = e ∷ []
only false e = []

abbrev pub in_hand : Writer → List QueuedEvent
in_hand waiting = []
in_hand exited = []
in_hand (holding e) = e ∷ []
in_hand (writing e) = e ∷ []

-- The event that a step of the goroutine is done with: written, or discarded after `stop`.
abbrev pub settled_from : Writer → Bool → List QueuedEvent
settled_from waiting stop = []
settled_from exited stop = []
settled_from (holding e) stop = only stop e
settled_from (writing e) stop = e ∷ []

module _ (env : Env) where
  -- The event that a step puts in the queue.
  unfoldable pub accepted : Action env → AuditService → List QueuedEvent
  accepted (logs now e) s = only (s.enabled && has_room s) e
  accepted (log_syncs _ _ _) s = []
  accepted closes s = []
  accepted gives_up s = []
  accepted (advances _ _) s = []

  unfoldable pub settled : Action env → AuditService → List QueuedEvent
  settled (logs _ _) s = []
  settled (log_syncs _ _ _) s = []
  settled closes s = []
  settled gives_up s = []
  settled (advances _ _) s = settled_from s.writer s.stop

  -- The states that a service gets to, with the events it has accepted and those it is done with.
  pub data Run : AuditService → List QueuedEvent → List QueuedEvent → Type 0 where
    begins : (n : ℕ) (rows : List InsertAuditEventParams) → Run (new_service n rows) [] []
    runs :
        {s : AuditService} {a d : List QueuedEvent} (c : Action env)
        → Run s a d
        → Run (perform env c s) (a ++ accepted c s) (d ++ settled c s)

-- First in, first out, nothing lost and nothing twice; the bound; and the goroutine ends only when
-- the channel is closed and empty.
pub record IsQueue (s : AuditService) (a d : List QueuedEvent) : Type 0 where
  pub fifo : a ≡ d ++ (in_hand s.writer ++ s.ch)
  pub bounded : length s.ch ≤ s.capacity
  pub ended : s.writer ≡ exited → (s.closed ≡ true) × (s.ch ≡ [])

length-snoc : (l : List QueuedEvent) (e : QueuedEvent) → length (l ++ e ∷ []) ≡ length l + 1
length-snoc [] e = refl
length-snoc (x ∷ l) e = rw (length-snoc l e) (omega arith)

-- The steps that touch neither the channel nor the goroutine.
unmoved :
    (s : AuditService) (a d : List QueuedEvent) → IsQueue s a d → IsQueue s (a ++ []) (d ++ [])
unmoved s a d h = rw (append-nil a, append-nil d) h

room-facts :
    (closed : Bool) (n m : ℕ) → (not closed && ltb n m) ≡ true → (closed ≡ false) × (n + 1 ≤ m)
room-facts true n m h = cc
room-facts false n m h = (refl, ground arith)

le_of_suc : (m n : ℕ) → suc m ≤ n → m ≤ n
le_of_suc m n h = omega arith

shorter :
    (e : QueuedEvent) (rest ch : List QueuedEvent) (n : ℕ)
    → ch ≡ e ∷ rest
    → length ch ≤ n
    → length rest ≤ n
shorter e rest ch n is_ch h = le_of_suc (length rest) n (subst (λ l. length l ≤ n) is_ch h)

-- A closed channel takes no event.
elim_closed : {P : Type 0} (s : AuditService) → s.closed ≡ false → s.closed ≡ true → P
elim_closed s not_shut shut = cc

offered :
    (b : Bool) (now : ℕ) (e : QueuedEvent) (s : AuditService) (a d : List QueuedEvent)
    → has_room s ≡ b
    → IsQueue s a d
    → IsQueue (offer b now e s) (a ++ only b e) (d ++ [])
unfolding offer drop
offered true now e s a d room h = rw (append-nil d) record {
  fifo =
      ap (λ l. l ++ e ∷ []) h.fifo
      ∙ append_assoc d (in_hand s.writer ++ s.ch) (e ∷ [])
      ∙ ap (λ l. d ++ l) (append_assoc (in_hand s.writer) s.ch (e ∷ []));
  bounded = rw (length-snoc s.ch e) (room-facts s.closed (length s.ch) s.capacity room).1;
  ended = λ q. elim_closed s (room-facts s.closed (length s.ch) s.capacity room).0 (h.ended q).0;
}
offered false now e s a d room h =
    rw (append-nil a, append-nil d) record { fifo = h.fifo; bounded = h.bounded; ended = h.ended }

module _ (env : Env) where
  received :
      (ch : List QueuedEvent) (b : Bool) (s : AuditService) (a d : List QueuedEvent)
      → s.ch ≡ ch
      → s.closed ≡ b
      → s.writer ≡ waiting
      → IsQueue s a d
      → IsQueue (receive env ch b s) (a ++ []) (d ++ [])
  unfolding receive
  received (e ∷ rest) b s a d is_ch is_closed is_waiting h =
      rw (append-nil a, append-nil d)
        record {
          fifo = h.fifo ∙ rw (is_waiting, is_ch) refl;
          bounded = shorter e rest s.ch s.capacity is_ch h.bounded;
          ended = λ q. cc;
        }
  received [] true s a d is_ch is_closed is_waiting h =
      rw (append-nil a, append-nil d)
        record {
          fifo = h.fifo ∙ rw (is_waiting) refl;
          bounded = h.bounded;
          ended = λ q. (is_closed, is_ch);
        }
  received [] false s a d is_ch is_closed is_waiting h = unmoved s a d h

  looked :
      (b : Bool) (e : QueuedEvent) (s : AuditService) (a d : List QueuedEvent)
      → s.writer ≡ holding e
      → IsQueue s a d
      → IsQueue (look_at_stop env b e s) (a ++ []) (d ++ only b e)
  unfolding look_at_stop
  looked true e s a d is_held h = rw (append-nil a) record {
    fifo = h.fifo ∙ rw (is_held) (sym (append_assoc d (e ∷ []) s.ch));
    bounded = h.bounded;
    ended = λ q. cc;
  }
  looked false e s a d is_held h =
      rw (append-nil a, append-nil d)
        record { fifo = h.fifo ∙ rw (is_held) refl; bounded = h.bounded; ended = λ q. cc }

  advanced :
      (now : ℕ) (failed : Bool) (wr : Writer) (s : AuditService) (a d : List QueuedEvent)
      → s.writer ≡ wr
      → IsQueue s a d
      → IsQueue (advance_from env now failed wr s) (a ++ []) (d ++ settled_from wr s.stop)
  unfolding advance_from write
  advanced now failed waiting s a d is_wr h = received s.ch s.closed s a d refl refl is_wr h
  advanced now failed (holding e) s a d is_wr h = looked s.stop e s a d is_wr h
  advanced now true (writing e) s a d is_wr h = rw (append-nil a) record {
    fifo = h.fifo ∙ rw (is_wr) (sym (append_assoc d (e ∷ []) s.ch));
    bounded = h.bounded;
    ended = λ q. cc;
  }
  advanced now false (writing e) s a d is_wr h = rw (append-nil a) record {
    fifo = h.fifo ∙ rw (is_wr) (sym (append_assoc d (e ∷ []) s.ch));
    bounded = h.bounded;
    ended = λ q. cc;
  }
  advanced now failed exited s a d is_wr h = unmoved s a d h

  logged :
      (enabled : Bool) (now : ℕ) (e : QueuedEvent) (s : AuditService) (a d : List QueuedEvent)
      → IsQueue s a d
      → IsQueue
          (if enabled then offer (has_room s) now e s else s)
          (a ++ only (enabled && has_room s) e)
          (d ++ [])
  logged true now e s a d h = offered (has_room s) now e s a d refl h
  logged false now e s a d h = unmoved s a d h

  shut :
      (b : Bool) (s : AuditService) (a d : List QueuedEvent)
      → IsQueue s a d
      → IsQueue (if b then s else record s { closed = true; base = s.written }) (a ++ []) (d ++ [])
  shut true s a d h = unmoved s a d h
  shut false s a d h =
      rw (append-nil a, append-nil d)
        record { fifo = h.fifo; bounded = h.bounded; ended = λ q. (refl, (h.ended q).1) }

  given_up :
      (b : Bool) (s : AuditService) (a d : List QueuedEvent)
      → IsQueue s a d
      → IsQueue (if b then record s { stop = true } else s) (a ++ []) (d ++ [])
  given_up true s a d h =
      rw (append-nil a, append-nil d) record { fifo = h.fifo; bounded = h.bounded; ended = h.ended }
  given_up false s a d h = unmoved s a d h

  synced :
      (enabled failed : Bool) (now : ℕ) (e : QueuedEvent) (s : AuditService)
      (a d : List QueuedEvent)
      → IsQueue s a d
      → IsQueue
          (if◌then◌else◌ {A = Bool × AuditService} enabled
            (failed, write env now failed e s)
            (false, s)).1
          (a ++ [])
          (d ++ [])
  unfolding write
  synced true true now e s a d h = unmoved s a d h
  synced true false now e s a d h =
      rw (append-nil a, append-nil d) record { fifo = h.fifo; bounded = h.bounded; ended = h.ended }
  synced false failed now e s a d h = unmoved s a d h

  performed :
      (c : Action env) (s : AuditService) (a d : List QueuedEvent)
      → IsQueue s a d
      → IsQueue (perform env c s) (a ++ accepted env c s) (d ++ settled env c s)
  unfolding perform accepted settled
  performed (logs now e) s a d h = logged s.enabled now e s a d h
  performed (log_syncs now failed e) s a d h = synced s.enabled failed now e s a d h
  performed closes s a d h = shut (not s.enabled || s.closed) s a d h
  performed gives_up s a d h = given_up s.closed s a d h
  performed (advances now failed) s a d h = advanced now failed s.writer s a d refl h

  -- However calls of Log, LogSync and Close and the steps of the goroutine take turns, the events
  -- that were accepted are those that the goroutine is done with, then the one in its hands, then
  -- the channel, each once and in order; the channel never holds more than its capacity; and the
  -- goroutine ends only when the channel is closed and empty.
  pub Run-IsQueue : {s : AuditService} {a d : List QueuedEvent} → Run env s a d → IsQueue s a d
  Run-IsQueue (begins n rows) = record { fifo = refl; bounded = omega arith; ended = λ q. cc }
  Run-IsQueue (runs {s} {a} {d} c r) = performed c s a d (Run-IsQueue r)
