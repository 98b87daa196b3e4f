-- ===== src/Tests/Process.antt =====
-- A process in the small world: its telemetry, its listener and its command line.
use act_web_server_rs.Common.{
  ℕ, suc, ◌≡◌, ◌⊎◌, refl, String, none, some, [], ◌∷◌, ok, err, true, library, if◌then◌else◌, ◌==◌,
  arith,
}
use act_web_server_rs.Common.Decimal.{to_string}
use act_web_server_rs.Common.Outcome.{unwrap_or}
use act_web_server_rs.Config.{Env, parse_port, env_non_empty}
use act_web_server_rs.Config.Port.{parse_port-to_string}
use act_web_server_rs.Flags.{resolve_from}
use act_web_server_rs.Flags.Control.{process_control}
use act_web_server_rs.Flags.Help.{
  FlagEntry, TomlReader, help_table, help_lines, help_line, option_of, pad,
}
use act_web_server_rs.Process.{Host, settings, main}
use act_web_server_rs.Process.Laws.{Ends, main-Ends}
use act_web_server_rs.Telemetry.{TelemetryPorts, TelemetryGuard, init}
use act_web_server_rs.Telemetry.Laws.{logger_of, Begins, init_lem}
use act_web_server_rs.WebApiPlane.{PlanePorts, identity, policies, validate_four_avenues}
use act_web_server_rs.Tests.Fixture.{ports}
use act_web_server_rs.Tests.Flags.{parser, variables}

-- Every call is counted.
abbrev telemetry : TelemetryPorts ℕ
telemetry = record {
  Filter = String;
  parse_filter = λ text. some text;
  Exporter = String;
  build_exporter = λ endpoint limit. some endpoint;
  Provider = String;
  build_provider = λ exporter resource. exporter;
  Tracer = String;
  tracer = λ provider name. name;
  set_tracer_provider = λ provider w. suc w;
  shutdown = λ provider w. suc w;
  try_init = λ filter tracer w. (true, suc w);
  Logger = String;
  new_logger = λ options. options.app_name;
  send = λ logger notice w. suc w;
  close = λ logger w. (true, suc w);
  emit = λ level text w. suc w;
  eprint = λ text w. suc w;
}

abbrev host : Host ports
host = record {
  print = λ text w. suc w;
  Listener = ℕ;
  bind = λ port w. (some port, suc w);
  serve = λ listener state w. (some tt, suc w);
}

abbrev verbose : FlagEntry
verbose = record {
  long = some "verbose";
  first_alias = none;
  short = some "v";
  value_type = some "bool";
  help = some "more output";
  default = none;
}

abbrev reader : TomlReader
reader contract = ok (some (some verbose ∷ none ∷ []))

main-Ends_example :
    Ends ports telemetry host
      (process_control reader "contract" (resolve_from parser "contract" [] variables))
      (settings (resolve_from parser "contract" [] variables))
      0
      (main ports telemetry host parser reader "contract" [] variables 0)
main-Ends_example = main-Ends ports telemetry host parser reader "contract" [] variables 0

abbrev exported : Env
exported name = if name == "OTEL_EXPORTER_OTLP_ENDPOINT" then some "http://collector" else none

init_lem_example :
    ((some (unwrap_or (exported "RUST_LOG") "info,act_web_server=debug") ≡ none)
      × (init telemetry exported "web" 0 ≡ (err library, 0)))
    ⊎ ((filter : String) × (guard : TelemetryGuard telemetry) × (some
            (unwrap_or (exported "RUST_LOG") "info,act_web_server=debug")
          ≡ some filter)
        × (guard.ores_logger ≡ logger_of telemetry "web")
        × ((init telemetry exported "web" 0).0 ≡ ok guard)
        × Begins telemetry exported "web" filter 0 guard (init telemetry exported "web" 0).1)
init_lem_example = init_lem telemetry exported "web" 0

abbrev help : String
help = "Usage: act_web_server [OPTIONS]\n\nOptions:\n  -v, --verbose                more output\n"

shown : help_table reader "contract" ≡ ok help
unfolding help_table help_lines help_line option_of pad
shown = refl

abbrev deployed : Env
deployed name = if name == "PORT" then some (to_string 8090) else none

parse_port-to_string_example : parse_port (env_non_empty deployed "PORT") 8080 "PORT" ≡ ok 8090
parse_port-to_string_example = parse_port-to_string deployed "PORT" 8090 8080 (omega arith) refl

-- a crate that accepts the repository's own names and the default port
abbrev plane : PlanePorts
plane = record {
  OrgIdentity = String;
  new = λ organization slug zone. some zone;
  DataPlaneError = String;
  DataPlaneCapabilities = String;
  capabilities_for = λ i. i;
  DirectDatabasePolicy = String;
  direct_database_for = λ i. i;
  validate_direct_database = λ policy i. if policy == i then ok tt else err policy;
  StatelessHttpPolicy = String;
  stateless_http_for = λ i. i;
  validate_stateless_http = λ policy. ok tt;
  StatefulMtlsTcpPolicy = ℕ;
  stateful_mtls_tcp_for = λ i port. port;
  validate_stateful_mtls_tcp = λ port. ok tt;
  JetStreamPolicy = String;
  jet_stream_for = λ i. i;
  validate_jet_stream = λ policy. ok tt;
}

validated : validate_four_avenues plane ≡ some (ok tt)
unfolding validate_four_avenues identity policies
validated = refl
