-- ===== src/Telemetry/Laws.antt =====
-- src/telemetry.rs: when the set-up fails, and what it does where it does not.
use act_web_server_rs.Common.{
  ◌≡◌, ◌≢◌, ◌⊎◌, ◌↔◌, inl, inr, refl, ap, String, Option, none, some, false, ok, err, arith,
  library, Option-cases,
}
use act_web_server_rs.Common.Outcome.{unwrap_or}
use act_web_server_rs.Common.Text.{trim}
use act_web_server_rs.Common.Text.Laws.{is_empty_iff}
use act_web_server_rs.Telemetry.{
  TelemetryPorts, TelemetryGuard, export_timeout, unless_blank, provider_for, provider_in,
  resource_of, init, initialized, eprint_unless, set_provider, tracer_in, install_subscriber,
}

module _ {W : Type 0} (t : TelemetryPorts W) where
  -- the endpoint of the settings, where it is not blank, has an exporter with this provider
  abbrev pub HasExporter : (String → Option String) → String → t.Provider → Type 0
  HasExporter var service_name provider =
      (endpoint : String) × (var "OTEL_EXPORTER_OTLP_ENDPOINT" ≡ some endpoint)
      × (trim endpoint ≢ "")
      × ((exporter : t.Exporter) × (t.build_exporter endpoint export_timeout ≡ some exporter)
          × (provider ≡ t.build_provider exporter (resource_of service_name)))

  provider_for-tracer :
      (endpoint : Option String) (service_name : String) (provider : t.Provider) (tracer : t.Tracer)
      → provider_for t endpoint service_name ≡ some (provider, tracer)
      → tracer ≡ t.tracer provider service_name
  unfolding provider_for
  provider_for-tracer endpoint service_name provider tracer e = ground arith

  provider_for_iff :
      (endpoint : Option String) (service_name : String) (provider : t.Provider)
      → (provider_in t (provider_for t (unless_blank endpoint) service_name) ≡ some provider) ↔ (
          (e : String) × (endpoint ≡ some e)
          × (trim e ≢ "")
          × ((exporter : t.Exporter) × (t.build_exporter e export_timeout ≡ some exporter)
              × (provider ≡ t.build_provider exporter (resource_of service_name))))
  unfolding unless_blank provider_for
  provider_for_iff none service_name provider =
      (λ h. absurd (ground arith), λ (e, given, nonblank, built). absurd (ground arith))
  provider_for_iff (some e) service_name provider =
      elim (Option-cases (t.build_exporter e export_timeout)) [
        | inl unbuilt ↦ (
          λ h. absurd (ground (arith, is_empty_iff (trim e))),
          λ (e', same, nonblank, (exporter, built, made)).
              let equal : e ≡ e' = ground arith in absurd (ground arith),
        )
        | inr (exporter, built) ↦ (
          λ h. (
            e,
            refl,
            ground (arith, is_empty_iff (trim e)),
            (exporter, built, ground (arith, is_empty_iff (trim e))),
          ),
          λ (e', same, nonblank, (other, built', made)).
              let equal : e ≡ e' = ground arith in
              ground (arith, is_empty_iff (trim e), is_empty_iff (trim e')),
        )
      ]

  abbrev pub logger_of : String → t.Logger
  logger_of service_name =
      t.new_logger (record { app_name = service_name; name = some "web-server"; console = false })

  -- The subscriber is installed over the filter and the tracer, or the one that is there is kept and this
  -- is printed; and then the first record is sent.
  abbrev pub begun : String → t.Filter → Option t.Tracer → W → W
  begun service_name filter tracer w = t.send (logger_of service_name) (initialized service_name) (
      eprint_unless t "telemetry: subscriber already initialized; keeping existing subscriber"
        (t.try_init filter tracer w))

  -- how the set-up with a filter ends
  pub data Begins (var : String → Option String) (service_name : String) (filter : t.Filter) (w : W)
      (guard : TelemetryGuard t) (after : W) : Type 0 where
    exporting :
        (provider : t.Provider)
        → HasExporter var service_name provider
        → guard.tracer_provider ≡ some provider
        → after
          ≡ begun service_name filter
              (some (t.tracer provider service_name))
              (t.set_tracer_provider provider w)
        → Begins var service_name filter w guard after
    local_only :
        ((provider : t.Provider) → ¬ HasExporter var service_name provider)
        → guard.tracer_provider ≡ none
        → after ≡ begun service_name filter none w
        → Begins var service_name filter w guard after

  init-Begins :
      (var : String → Option String) (service_name : String) (filter : t.Filter) (w : W)
      (built : Option (t.Provider × t.Tracer))
      → provider_for t (unless_blank (var "OTEL_EXPORTER_OTLP_ENDPOINT")) service_name ≡ built
      → Begins var service_name filter w
          (record { ores_logger = logger_of service_name; tracer_provider = provider_in t built })
          (begun service_name filter (tracer_in t built) (set_provider t built w))
  unfolding set_provider
  init-Begins var service_name filter w none e =
      local_only
        (λ provider h.
          let given =
            (provider_for_iff (var "OTEL_EXPORTER_OTLP_ENDPOINT") service_name provider).1 h in
          absurd (ground arith))
        refl refl
  init-Begins var service_name filter w (some (provider, tracer)) e =
      exporting provider
        ((provider_for_iff (var "OTEL_EXPORTER_OTLP_ENDPOINT") service_name provider).0
          (ground arith))
        refl
        (ap
          (λ (named : t.Tracer).
            begun service_name filter (some named) (t.set_tracer_provider provider w))
          (provider_for-tracer (unless_blank (var "OTEL_EXPORTER_OTLP_ENDPOINT")) service_name
            provider tracer e))

  -- The set-up fails exactly if the filter of `RUST_LOG`, or the default in its place, is not valid, and
  -- then nothing has changed. Otherwise, if an endpoint is set that is not blank and its exporter can be
  -- built, the provider over it becomes the global one, the subscriber is installed with its tracer, and
  -- the guard keeps it; and if not, the subscriber is installed without a tracer and the guard keeps no
  -- provider. After either the first record is sent.
  pub init_lem :
      (var : String → Option String) (service_name : String) (w : W)
      → ((t.parse_filter (unwrap_or (var "RUST_LOG") "info,act_web_server=debug") ≡ none)
          × (init t var service_name w ≡ (err library, w)))
        ⊎ ((filter : t.Filter) × (guard : TelemetryGuard t) × (t.parse_filter
                (unwrap_or (var "RUST_LOG") "info,act_web_server=debug")
              ≡ some filter)
            × (guard.ores_logger ≡ logger_of service_name)
            × ((init t var service_name w).0 ≡ ok guard)
            × Begins var service_name filter w guard (init t var service_name w).1)
  unfolding init install_subscriber
  init_lem var service_name w =
      elim (Option-cases
        (t.parse_filter (unwrap_or (var "RUST_LOG") "info,act_web_server=debug"))) [
          | inl invalid ↦ inl (invalid, ground arith)
          | inr (filter, valid) ↦
              let built =
                provider_for t (unless_blank (var "OTEL_EXPORTER_OTLP_ENDPOINT")) service_name in
              inr (
                filter,
                record {
                  ores_logger = logger_of service_name;
                  tracer_provider = provider_in t built;
                },
                valid,
                refl,
                ground arith,
                rw valid (init-Begins var service_name filter w built refl),
              )
        ]
