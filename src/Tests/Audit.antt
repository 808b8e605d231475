-- ===== src/Tests/Audit.antt =====
-- Runs of the audit log's queue and of the choice of the client's address.
use kauth_go.Prelude.{ℕ, ◌==◌, ◌≡◌, refl, true, false, String, some, [], ◌∷◌, arith}
use kauth_go.Audit.Queue.{
  QueuedEvent, AuditService, exited, new_service, queue_capacity, params, Action, logs, closes,
  perform,
}
use kauth_go.Audit.Queue.Fifo.{Run, begins, runs, IsQueue, in_hand, Run-IsQueue}
use kauth_go.Audit.Queue.Drain.{drain, close_drains}
use kauth_go.Audit.Queue.Written.{close_writes}
use kauth_go.Audit.ClientIp.{NetCodec, client_ip, remote_host}
use kauth_go.Tests.Fixtures.{env}

abbrev event_of : String → QueuedEvent
event_of kind = record {
  kind = kind;
  auth_method = "otp";
  email = "a@x.no";
  service_id = "app";
  ip = "10.0.0.1";
  ua = "";
  success = true;
  details = "";
}

-- Two events are logged, and Close closes the channel.
abbrev closing : AuditService
closing = record (new_service queue_capacity []) {
  closed = true;
  ch = event_of "login" ∷ event_of "logout" ∷ [];
}

closing-Run : Run env closing (event_of "login" ∷ event_of "logout" ∷ []) []
unfolding kauth_go.Audit.Queue.perform kauth_go.Audit.Queue.log_event
    kauth_go.Audit.Queue.close_queue kauth_go.Audit.Queue.offer kauth_go.Audit.Queue.Fifo.accepted
    kauth_go.Audit.Queue.Fifo.settled
closing-Run = runs closes (
    runs (logs 0 (event_of "logout")) (runs (logs 0 (event_of "login")) (begins queue_capacity [])))

Run-IsQueue_example : IsQueue closing (event_of "login" ∷ event_of "logout" ∷ []) []
Run-IsQueue_example = Run-IsQueue env closing-Run

-- The clock counts the steps.
abbrev clock_of : ℕ → ℕ
clock_of n = n

close_drains_example :
    ((drain env clock_of (λ _. true) 0 9 closing).writer ≡ exited)
    × Run env
        (drain env clock_of (λ _. true) 0 9 closing)
        (event_of "login" ∷ event_of "logout" ∷ [])
        (event_of "login" ∷ event_of "logout" ∷ [])
close_drains_example = close_drains env clock_of (λ _. true) 0 9 closing-Run refl (omega arith)

close_writes_example :
    (drain env clock_of (λ _. false) 0 9 closing).rows
    ≡ params env 2 (event_of "login") ∷ params env 5 (event_of "logout") ∷ []
close_writes_example = close_writes env clock_of 0 9 closing-Run refl refl (omega arith)

-- Addresses of the tests: "local" is the loopback interface.
abbrev net : NetCodec
net = record { split_host_port = λ s. some s; parse_ip = λ s. some (s, s == "local") }

believed_header : client_ip net "local" "1.2.3.4" ≡ "1.2.3.4"
unfolding client_ip remote_host kauth_go.Audit.ClientIp.believed
    kauth_go.Audit.ClientIp.forwarded_ip
believed_header = refl
