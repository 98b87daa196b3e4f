-- ===== src/Gateway/State.antt =====
-- src/data_plane.rs: what the gateway keeps between requests, and how a call reaches outside.
use act_web_server_rs.Common.{ℕ, Option, Result, ok, err}
use act_web_server_rs.Common.Effect.{Action}
use act_web_server_rs.Ports.{Ports, Timed, elapsed, failed, done}
use act_web_server_rs.Gateway.{GatewayError, timeout, upstream}

-- `OPERATION_SEQUENCE`, the slot of `PersistentMtlsClient::connection`, the permits left in
-- `TransportGateway::permits`, and the world outside.
pub record Server (p : Ports) : Type 0 where
  pub world : p.World
  pub sequence : ℕ
  pub connection : Option p.Connection
  pub permits : ℕ

-- `.map_err(|_| GatewayError::Timeout)?.map_err(|_| GatewayError::Upstream)?`
abbrev pub timed : {A : Type 0} → Timed A → Result GatewayError A
timed elapsed = err timeout
timed failed = err upstream
timed (done a) = ok a

module _ (p : Ports) where
  -- A call that reaches outside: only the world changes.
  abbrev pub on_world :
      {R A : Type 0}
      → (R → Result GatewayError A)
      → (p.World → R × p.World)
      → Action (Server p) GatewayError A
  on_world read call s = let (r, w) = call s.world in (read r, record s { world = w })
