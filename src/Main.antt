-- ===== src/Main.antt =====
-- src/main.rs: what the start builds from the configuration. A database or a broker that does not
-- answer leaves its mode disabled; any other failure ends the process.
pub mod Laws
pub mod Wiring
use act_web_server_rs.Common.{
  ℕ, String, Bool, Option, none, some, Result, ok, err, ok_or, AnyError, library, traverse, is_some,
}
use act_web_server_rs.Common.Effect.{Action, pure, lift, ◌>>=◌, ◌>>◌}
use act_web_server_rs.Ports.{Ports}
use act_web_server_rs.Auth
use act_web_server_rs.Auth.{SharedAuthVerifier}
use act_web_server_rs.Config.{Config, SharedAuthConfig, DirectDatabaseConfig}
use act_web_server_rs.Db.{DirectReadStore, connect_store}
use act_web_server_rs.Gateway.Mtls.Setup.{PersistentMtlsClient, from_config}
use act_web_server_rs.Gateway.State.{Server}
use act_web_server_rs.Gateway.Transport
use act_web_server_rs.Gateway.Transport.{TransportGateway, max_in_flight_operations}
use act_web_server_rs.Routes.{AppState}

-- `match … { Ok(store) => Some(store), Err(error) => { warn; None } }`
abbrev pub ok_only : {A : Type 0} → Result AnyError A → Option A
ok_only (ok a) = some a
ok_only (err _) = none

module _ (p : Ports) where
  -- the verifier of the configuration
  unfoldable pub verifier_of : SharedAuthConfig → Result AnyError (SharedAuthVerifier p)
  verifier_of auth = Auth.new p auth.base_url auth.service_credential auth.audience

  abbrev pub swallowed :
      {A : Type 0} → Result AnyError A × p.World → Result AnyError (Option A) × p.World
  swallowed (r, w) = (ok (ok_only r), w)

  -- the `match` on `cfg.direct_database`
  unfoldable pub direct_of :
      Option DirectDatabaseConfig → Action p.World AnyError (Option (DirectReadStore p))
  direct_of none w = (ok none, w)
  direct_of (some config) w = swallowed (connect_store p config w)

  -- the `match` on `cfg.nats_url`
  unfoldable pub jetstream_of : Option String → Action p.World AnyError (Option p.JetStream)
  jetstream_of none w = (ok none, w)
  jetstream_of (some url) w = let (r, w') = p.nats_connect url w in (ok r, w')

  -- `main`, from the configuration to the state that the router is given
  unfoldable pub start : Config p → Action p.World AnyError (AppState p)
  unfolding verifier_of direct_of jetstream_of
  start cfg = do
    shared_auth ← lift (traverse verifier_of cfg.shared_auth)
    direct ← direct_of cfg.direct_database
    tcp ← lift (traverse (from_config p) cfg.mtls)
    jetstream ← jetstream_of cfg.nats_url
    gateway ← lift (Transport.new p direct cfg.api_url tcp jetstream cfg.operation_attestation_key)
    pure (record {
      shared_auth = shared_auth;
      gateway = gateway;
      direct_database_connected = is_some direct;
      stateless_http_configured = is_some cfg.api_url;
      stateful_mtls_configured = is_some tcp;
      jetstream_configured = is_some jetstream;
    })

  -- the mutable state with which serving begins
  unfoldable pub initial : p.World → Server p
  initial w = record {
    world = w;
    sequence = 1;
    connection = none;
    permits = max_in_flight_operations;
  }
