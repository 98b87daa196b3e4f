-- ===== src/Telemetry.antt =====
-- src/telemetry.rs: the set-up of logging and tracing, its end, and the bridge from the structured
-- logger to `tracing`. The crates `tracing`, `opentelemetry` and `next_loggers` are the parameter
-- `TelemetryPorts`, over a state `W` of all that they change.
pub mod Laws
use act_web_server_rs.Common.{
  ℕ, String, Bool, true, false, Option, none, some, List, [], ◌∷◌, Result, ok, err, ok_or, AnyError,
  library, if◌then◌else◌,
}
use act_web_server_rs.Common.Outcome.{unwrap_or}
use act_web_server_rs.Common.Effect.{Action, pure, lift, ◌>>=◌, ◌>>◌}
use act_web_server_rs.Common.Text.{is_empty, trim}
use act_web_server_rs.Flags.Help.{package_version}

pub data LogLevel : Type 0 where
  trace debug info warn error fatal : LogLevel

-- the levels of the macros of `tracing`
pub data Level : Type 0 where
  trace debug info warn error : Level

-- the settings of the structured logger
pub record LoggerOptions : Type 0 where
  pub app_name : String
  pub name : Option String
  pub console : Bool

-- a record that the set-up and the end write
pub record Notice : Type 0 where
  pub message : String
  pub fields : List (String × String)
  pub trace_id : String
  pub routine_id : String

pub record TelemetryPorts (W : Type 0) : Type 1 where
  -- `EnvFilter::try_new`
  pub Filter : Type 0
  pub parse_filter : String → Option Filter
  -- an exporter for an endpoint and a time limit in milliseconds; `none` where it cannot be built
  pub Exporter : Type 0
  pub build_exporter : String → ℕ → Option Exporter
  -- a provider that exports in batches for a resource, and its tracer of a name
  pub Provider : Type 0
  pub build_provider : Exporter → List (String × String) → Provider
  pub Tracer : Type 0
  pub tracer : Provider → String → Tracer
  pub set_tracer_provider : Provider → W → W
  pub shutdown : Provider → W → W
  -- `registry().with(filter)….try_init()`, with the layer of a tracer if there is one
  pub try_init : Filter → Option Tracer → W → Bool × W
  -- the structured logger with the bridge as its transport: a record at the level `info`, and `close`
  pub Logger : Type 0
  pub new_logger : LoggerOptions → Logger
  pub send : Logger → Notice → W → W
  pub close : Logger → W → Bool × W
  -- a record as the macro of a level emits it
  pub emit : Level → String → W → W
  pub eprint : String → W → W

abbrev pub export_timeout : ℕ
export_timeout = 5_000

-- `.filter(|value| !value.trim().is_empty())`
unfoldable pub unless_blank : Option String → Option String
unless_blank none = none
unless_blank (some value) = if is_empty (trim value) then none else some value

-- `Resource::new`
unfoldable pub resource_of : String → List (String × String)
resource_of service_name =
    ("service.name", service_name)
    ∷ ("service.namespace", "anticaptrad")
    ∷ ("service.version", package_version)
    ∷ []

-- the record of the set-up
unfoldable pub initialized : String → Notice
initialized service_name = record {
  message = "telemetry initialized";
  fields =
      ("service.name", service_name)
      ∷ ("service.namespace", "anticaptrad")
      ∷ ("data.classification", "metadata-only")
      ∷ [];
  trace_id = "ores-trace-O0S0P9gdPeHI4jMFdTXj8";
  routine_id = "ores-routine-7LOLSvk-hqklZzNCgeOgd";
}

-- the record of the end
unfoldable pub shutting_down : Notice
shutting_down = record {
  message = "telemetry shutting down";
  fields = [];
  trace_id = "ores-trace-J4gxOroWuiljDT-wgwjR3";
  routine_id = "ores-routine-Y0gP7CkLtsLhkflOkn7Ag";
}

module _ {W : Type 0} (t : TelemetryPorts W) where
  pub record TelemetryGuard : Type 0 where
    pub ores_logger : t.Logger
    pub tracer_provider : Option t.Provider

  -- `build_tracer_provider`
  unfoldable pub build_tracer_provider :
      String → List (String × String) → String → Option (t.Provider × t.Tracer)
  build_tracer_provider endpoint resource service_name =
      elim (t.build_exporter endpoint export_timeout) [
        | none ↦ none
        | some exporter ↦ some (
          t.build_provider exporter resource,
          t.tracer (t.build_provider exporter resource) service_name,
        )
      ]

  -- the two components of `.map_or((None, None), …)`
  abbrev pub provider_in : Option (t.Provider × t.Tracer) → Option t.Provider
  provider_in none = none
  provider_in (some (provider, tracer)) = some provider

  abbrev pub tracer_in : Option (t.Provider × t.Tracer) → Option t.Tracer
  tracer_in none = none
  tracer_in (some (provider, tracer)) = some tracer

  -- `endpoint.as_deref().and_then(…)`
  unfoldable pub provider_for : Option String → String → Option (t.Provider × t.Tracer)
  unfolding build_tracer_provider resource_of
  provider_for none service_name = none
  provider_for (some endpoint) service_name =
      build_tracer_provider endpoint (resource_of service_name) service_name

  -- `.map_or(…)`, which also makes the provider the global one
  unfoldable pub set_provider : Option (t.Provider × t.Tracer) → W → W
  set_provider none w = w
  set_provider (some (provider, tracer)) w = t.set_tracer_provider provider w

  abbrev pub eprint_unless : String → Bool × W → W
  eprint_unless text (true, w) = w
  eprint_unless text (false, w) = t.eprint text w

  -- `install_subscriber`
  unfoldable pub install_subscriber : t.Filter → Option t.Tracer → W → W
  install_subscriber filter tracer w =
      eprint_unless "telemetry: subscriber already initialized; keeping existing subscriber"
        (t.try_init filter tracer w)

  abbrev done : (W → W) → Action W AnyError (Unit {0})
  done f w = (ok tt, f w)

  -- `init`, for the settings that `flags::var` gives
  unfoldable pub init : (String → Option String) → String → Action W AnyError TelemetryGuard
  unfolding unless_blank provider_for set_provider install_subscriber initialized
  init var service_name = do
    filter ←
        lift
          (ok_or (t.parse_filter (unwrap_or (var "RUST_LOG") "info,act_web_server=debug")) library)
    let endpoint = unless_blank (var "OTEL_EXPORTER_OTLP_ENDPOINT")
    let built = provider_for endpoint service_name
    done (set_provider built)
    done (install_subscriber filter (tracer_in built))
    let logger =
        t.new_logger (record { app_name = service_name; name = some "web-server"; console = false })
    done (t.send logger (initialized service_name))
    pure (record { ores_logger = logger; tracer_provider = provider_in built })

  abbrev shut : Option t.Provider → W → W
  shut none w = w
  shut (some provider) w = t.shutdown provider w

  -- `Drop for TelemetryGuard`
  unfoldable pub drop : TelemetryGuard → W → W
  unfolding shutting_down
  drop guard w = shut guard.tracer_provider (
      eprint_unless "telemetry: Ores logger shutdown failed"
        (t.close guard.ores_logger (t.send guard.ores_logger shutting_down w)))

  -- the `match` of `TracingBridgeTransport::write`
  unfoldable pub level_of : LogLevel → Level
  level_of LogLevel.trace = Level.trace
  level_of LogLevel.debug = Level.debug
  level_of LogLevel.info = Level.info
  level_of LogLevel.warn = Level.warn
  level_of LogLevel.error = Level.error
  level_of fatal = Level.error

  -- `TracingBridgeTransport::write`, for a record of a level and what its `to_json` gives
  unfoldable pub write : LogLevel → Option String → Action W AnyError (Unit {0})
  unfolding level_of
  write level encoded = do text ← lift (ok_or encoded library); done (t.emit (level_of level) text)

-- `TracingBridgeTransport::is_open_telemetry`
abbrev pub is_open_telemetry : Bool
is_open_telemetry = true
