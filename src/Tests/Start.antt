-- ===== src/Tests/Start.antt =====
-- The start at a concrete configuration.
use act_web_server_rs.Common.{◌≡◌, ◌↔◌, refl, ok, err, some, false, arith}
use act_web_server_rs.Common.Text.{has_suffix}
use act_web_server_rs.Operation.{stateful_mtls_tcp}
use act_web_server_rs.Auth
use act_web_server_rs.Common.Json.{bool}
use act_web_server_rs.Db.{connect, connect_store}
use act_web_server_rs.Gateway.{not_configured}
use act_web_server_rs.Gateway.Transport
use act_web_server_rs.Gateway.Transport.{client_for, read}
use act_web_server_rs.Gateway.Transport.Configured.{is_enabled}
use act_web_server_rs.Main.{start, verifier_of, direct_of, jetstream_of}
use act_web_server_rs.Main.Laws.{shown_flag, start_flags}
use act_web_server_rs.Tests.Bearer.{well_formed}
use act_web_server_rs.Tests.Config.{env_accepted}
use act_web_server_rs.Tests.Fixture.{ports}
use act_web_server_rs.Tests.State.{env, config, state, server, direct_config, direct_state}

started : (start ports config 0).0 ≡ ok state
unfolding start verifier_of direct_of jetstream_of Auth.new Transport.new client_for connect_store
    connect has_suffix
started = refl

start_flags_example :
    (shown_flag ports state stateful_mtls_tcp
      ≡ some (bool (is_enabled ports state.gateway stateful_mtls_tcp)))
    × (((read ports state.gateway stateful_mtls_tcp "actor-1" "Bearer token" server).0
          ≡ err not_configured)
        ↔ (shown_flag ports state stateful_mtls_tcp ≡ some (bool false)))
start_flags_example =
    start_flags ports env config 0 state stateful_mtls_tcp "actor-1" "Bearer token" server
      env_accepted started well_formed (omega arith)

direct_started : (start ports direct_config 0).0 ≡ ok direct_state
unfolding start verifier_of direct_of jetstream_of Auth.new Transport.new client_for connect_store
    connect has_suffix
direct_started = refl
