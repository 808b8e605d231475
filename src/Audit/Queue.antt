-- ===== src/Audit/Queue.antt =====
-- audit.Service of internal/audit/service.go: a bounded queue that one goroutine writes to the
-- database. Each step is what happens between two points where goroutines may take turns: a call of
-- Log, LogSync or the first half of Close, the end of a Close that gives up, and one step of `run`.
-- `drop` takes its two locks one after the other; nothing else reads what they guard.
pub mod Fifo
pub mod Drain
pub mod Written
use kauth_go.Prelude.{
  ℕ, ◌+◌, ◌-◌, ◌%◌, ◌^◌, String, Bool, true, false, not, ◌&&◌, ◌||◌, Option, none, some, List, [],
  ◌∷◌, ◌++◌, leb, ltb, length, ◌==◌, if◌then◌else◌,
}
use kauth_go.Env.{Env}

-- audit.Event
pub record QueuedEvent : Type 0 where
  pub kind : String
  pub auth_method : String
  pub email : String
  pub service_id : String
  pub ip : String
  pub ua : String
  pub success : Bool
  pub details : String

pub record InsertAuditEventParams : Type 0 where
  pub event_type : String
  pub auth_method : Option String
  pub email : Option String
  pub service_id : Option String
  pub ip_address : Option String
  pub user_agent : Option String
  pub success : ℕ
  pub details : Option String
  pub created_at : String

-- Where the goroutine of `run` is: in `range s.ch`, with an event before the look at `stop`, in
-- `write`, or at its end with `done` closed.
pub data Writer : Type 0 where
  waiting exited : Writer
  holding writing : QueuedEvent → Writer

-- `enabled` says that `insert` is not nil, and `last_warn` is `none` for the zero time. `rows` is
-- what the insertions have left in audit_events.
pub record AuditService : Type 0 where
  pub enabled : Bool
  pub capacity : ℕ
  pub closed : Bool
  pub ch : List QueuedEvent
  pub writer : Writer
  pub dropped : ℕ
  pub written : ℕ
  pub base : ℕ
  pub stop : Bool
  pub discarded : ℕ
  pub last_warn : Option ℕ
  pub rows : List InsertAuditEventParams

abbrev pub queue_capacity : ℕ
queue_capacity = 1024

-- newService: the goroutine waits for the first event.
abbrev pub new_service : ℕ → List InsertAuditEventParams → AuditService
new_service n rows = record {
  enabled = true;
  capacity = n;
  closed = false;
  ch = [];
  writer = waiting;
  dropped = 0;
  written = 0;
  base = 0;
  stop = false;
  discarded = 0;
  last_warn = none;
  rows = rows;
}

-- atomic.Uint64
unfoldable pub increment : ℕ → ℕ
increment n = (n + 1) % 2 ^ 64

abbrev pub null_str : String → Option String
null_str s = if s == "" then none else some s

-- drop: at most one warning in ten seconds.
unfoldable pub should_warn : Option ℕ → ℕ → Bool
should_warn none now = true
should_warn (some last) now = leb (last + 10) now

unfoldable pub drop : ℕ → AuditService → AuditService
drop now s = record s {
  dropped = increment s.dropped;
  last_warn = if should_warn s.last_warn now then some now else s.last_warn;
}

-- The send under the read lock, which needs room in the channel.
abbrev pub has_room : AuditService → Bool
has_room s = not s.closed && ltb (length s.ch) s.capacity

unfoldable pub offer : Bool → ℕ → QueuedEvent → AuditService → AuditService
offer true now e s = record s { ch = s.ch ++ e ∷ [] }
offer false now e s = drop now s

unfoldable pub log_event : ℕ → QueuedEvent → AuditService → AuditService
unfolding offer
log_event now e s = if s.enabled then offer (has_room s) now e s else s

-- Close, up to the wait.
unfoldable pub close_queue : AuditService → AuditService
close_queue s =
    if not s.enabled || s.closed then s else record s { closed = true; base = s.written }

-- Close, when its context ends before the goroutine; only a Close that has closed the channel waits.
unfoldable pub give_up : AuditService → AuditService
give_up s = if s.closed then record s { stop = true } else s

-- What Close reports when the goroutine has ended, and `none` while it waits.
unfoldable pub close_report : AuditService → Option ℕ
close_report s = elim s.writer [ exited ↦ some ((s.written + 2 ^ 64 - s.base) % 2 ^ 64) | _ ↦ none ]

module _ (env : Env) where
  unfoldable pub params : ℕ → QueuedEvent → InsertAuditEventParams
  params now e = record {
    event_type = e.kind;
    auth_method = null_str e.auth_method;
    email = null_str e.email;
    service_id = null_str e.service_id;
    ip_address = null_str e.ip;
    user_agent = null_str e.ua;
    success = if e.success then 1 else 0;
    details = null_str e.details;
    created_at = env.format_time now;
  }

  -- The insertion fails for a reason that the model does not compute, or leaves a row.
  unfoldable pub write : ℕ → Bool → QueuedEvent → AuditService → AuditService
  unfolding params
  write now true e s = s
  write now false e s = record s { rows = s.rows ++ params now e ∷ [] }

  -- The error goes to the caller.
  unfoldable pub log_sync : ℕ → Bool → QueuedEvent → AuditService → Bool × AuditService
  unfolding write
  log_sync now failed e s = if s.enabled then (failed, write now failed e s) else (false, s)

  -- `range s.ch` ends when the channel is closed and empty.
  unfoldable pub receive : List QueuedEvent → Bool → AuditService → AuditService
  receive (e ∷ rest) closed s = record s { writer = holding e; ch = rest }
  receive [] true s = record s { writer = exited }
  receive [] false s = s

  unfoldable pub look_at_stop : Bool → QueuedEvent → AuditService → AuditService
  look_at_stop true e s = record s { writer = waiting; discarded = s.discarded + 1 }
  look_at_stop false e s = record s { writer = writing e }

  -- run, from one turn to the next.
  unfoldable pub advance_from : ℕ → Bool → Writer → AuditService → AuditService
  unfolding receive look_at_stop write
  advance_from now failed waiting s = receive s.ch s.closed s
  advance_from now failed (holding e) s = look_at_stop s.stop e s
  advance_from now failed (writing e) s =
      let w = write now failed e s in record w { writer = waiting; written = increment w.written }
  advance_from now failed exited s = s

  unfoldable pub advance : ℕ → Bool → AuditService → AuditService
  unfolding advance_from
  advance now failed s = advance_from now failed s.writer s

  pub data Action : Type 0 where
    logs : (now : ℕ) → QueuedEvent → Action
    log_syncs : (now : ℕ) (failed : Bool) → QueuedEvent → Action
    closes gives_up : Action
    advances : (now : ℕ) (failed : Bool) → Action

  unfoldable pub perform : Action → AuditService → AuditService
  unfolding log_event log_sync close_queue give_up advance
  perform (logs now e) s = log_event now e s
  perform (log_syncs now failed e) s = (log_sync now failed e s).1
  perform closes s = close_queue s
  perform gives_up s = give_up s
  perform (advances now failed) s = advance now failed s
