-- ===== src/Audit/ClientIp.antt =====
-- ClientIP of internal/audit/service.go. What net.SplitHostPort and net.ParseIP make of a text is a
-- parameter.
use kauth_go.Prelude.{◌≡◌, ◌⊎◌, String, Bool, true, false, Option, none, some, ◌==◌, if◌then◌else◌}

pub record NetCodec : Type 0 where
  -- net.SplitHostPort(s), the host of it; `none` is an error.
  pub split_host_port : String → Option String
  -- net.ParseIP(s).String() with IsLoopback; `none` is nil.
  pub parse_ip : String → Option (String × Bool)

module _ (net : NetCodec) where
  unfoldable pub remote_host : String → String
  remote_host remote_addr = elim (net.split_host_port remote_addr) [
    | none ↦ remote_addr
    | some host ↦ host
  ]

  unfoldable pub forwarded_ip : String → String → String
  forwarded_ip cf host =
      if cf == "" then host else elim (net.parse_ip cf) [ none ↦ host | some (ip, _) ↦ ip ]

  unfoldable pub believed : Option (String × Bool) → String → String → String
  unfolding forwarded_ip
  believed (some (_, true)) cf host = forwarded_ip cf host
  believed (some (_, false)) cf host = host
  believed none cf host = host

  unfoldable pub client_ip : (remote_addr cf : String) → String
  unfolding remote_host believed
  client_ip remote_addr cf =
      let host = remote_host remote_addr in believed (net.parse_ip host) cf host

  -- The connection comes from the loopback interface, and the header has the address `answer`.
  pub record IsForwarded (remote_addr cf answer : String) : Type 0 where
    pub peer : String
    pub loopback : net.parse_ip (remote_host remote_addr) ≡ some (peer, true)
    pub given : (cf == "") ≡ false
    pub kind : Bool
    pub address : net.parse_ip cf ≡ some (answer, kind)

  module _ (remote_addr cf : String) where
    abbrev Answers : String → Type 0
    Answers answer = (answer ≡ remote_host remote_addr) ⊎ IsForwarded remote_addr cf answer
