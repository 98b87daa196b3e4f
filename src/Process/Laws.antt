-- ===== src/Process/Laws.antt =====
-- src/main.rs: the ways in which a process can end.
use act_web_server_rs.Common.{
  ◌≡◌, refl, String, Option, none, some, List, Result, ok, err, inl, inr, arith, AnyError, bail,
  library, Result-cases,
}
use act_web_server_rs.Common.Outcome.{unwrap_or}
use act_web_server_rs.Ports.{Ports}
use act_web_server_rs.Config.{Config, from_env}
use act_web_server_rs.Config.Laws.{IsValid, from_env-IsValid}
use act_web_server_rs.Flags.{FlagParser, resolve_from}
use act_web_server_rs.Flags.Control.{process_control}
use act_web_server_rs.Flags.Help.{TomlReader}
use act_web_server_rs.Process.{Host, settings, listen, guarded, serve_process, controlled, main}
use act_web_server_rs.Telemetry.{TelemetryPorts, TelemetryGuard, init}
use act_web_server_rs.Telemetry.Laws.{init_lem}

module _ (p : Ports) (t : TelemetryPorts p.World) (h : Host p) where
  -- how a process that begins in the world `w` has ended, with the output of `process_control` and the
  -- settings `var`
  pub data Ends (control : Result String (Option String)) (var : String → Option String)
      (w : p.World) (end : Result AnyError (Unit {0}) × p.World) : Type 0 where
    printed :
        (output : String)
        → control ≡ ok (some output)
        → end ≡ (ok tt, h.print output w)
        → Ends control var w end
    refused_flags :
        (e : String) → control ≡ err e → end ≡ (err (bail e), w) → Ends control var w end
    refused_config :
        (e : AnyError)
        → control ≡ ok none
        → from_env p var ≡ err e
        → end ≡ (err e, w)
        → Ends control var w end
    refused_filter :
        (cfg : Config p)
        → control ≡ ok none
        → from_env p var ≡ ok cfg
        → t.parse_filter (unwrap_or (var "RUST_LOG") "info,act_web_server=debug") ≡ none
        → end ≡ (err library, w)
        → Ends control var w end
    served :
        (cfg : Config p) (guard : TelemetryGuard t)
        → control ≡ ok none
        → from_env p var ≡ ok cfg
        → IsValid p cfg
        → (init t var cfg.service_name w).0 ≡ ok guard
        → end ≡ guarded p t h guard (listen p t h cfg (init t var cfg.service_name w).1)
        → Ends control var w end

  serve_process-Ends :
      (control : Result String (Option String)) (var : String → Option String) (w : p.World)
      → control ≡ ok none
      → Ends control var w (serve_process p t h var w)
  unfolding serve_process
  serve_process-Ends control var w going = elim (Result-cases (from_env p var)) [
    | inr (e, invalid) ↦ refused_config e going invalid (ground arith)
    | inl (cfg, valid) ↦ elim (init_lem t var cfg.service_name w) [
      | inl (unparsed, same) ↦ refused_filter cfg going valid unparsed (rw (valid, same) refl)
      | inr (filter, guard, parsed, logger, made, begins) ↦
          served cfg guard going valid (from_env-IsValid p var cfg valid) made
            (rw (valid, made) refl)
    ]
  ]

  -- A process ends in one of these ways, and which one its flags and settings decide: the help or the
  -- version is printed, and nothing else happens; the command line, a variable or the log filter is
  -- refused, in this order, and nothing has happened; or, with a configuration that is valid, the
  -- process listens until it stops or fails, and in either case the telemetry is shut down last of all.
  pub main-Ends :
      (f : FlagParser) (read : TomlReader) (contract : String) (argv : List String)
      (environment : List (String × String)) (w : p.World)
      → Ends
          (process_control read contract (resolve_from f contract argv environment))
          (settings (resolve_from f contract argv environment))
          w
          (main p t h f read contract argv environment w)
  unfolding main controlled
  main-Ends f read contract argv environment w =
      let resolved = resolve_from f contract argv environment in
      elim (Result-cases (process_control read contract resolved)) [
        | inr (e, failed) ↦ refused_flags e failed (rw failed refl)
        | inl (none, going) ↦ rw going (serve_process-Ends (ok none) (settings resolved) w refl)
        | inl (some output, shown) ↦ printed output shown (rw shown refl)
      ]
