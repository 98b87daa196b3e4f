-- ===== src/Process.antt =====
-- src/main.rs: the whole of `main`, from the command line to the end of serving. What the process
-- prints, the listener and axum's loop are the parameter `Host`.
pub mod Laws
pub mod Shutdown
use act_web_server_rs.Common.{
  ℕ, String, Bool, Option, none, some, List, Result, ok, err, AnyError, bail, library, ok_or,
}
use act_web_server_rs.Common.Effect.{Action, pure, lift, ◌>>=◌, ◌>>◌}
use act_web_server_rs.Common.Maps.{Map}
use act_web_server_rs.Ports.{Ports}
use act_web_server_rs.Config.{Config, from_env}
use act_web_server_rs.Flags.{FlagParser, resolve_from}
use act_web_server_rs.Flags.Control.{process_control, var}
use act_web_server_rs.Flags.Help.{TomlReader}
use act_web_server_rs.Main.{start}
use act_web_server_rs.Routes.{AppState}
use act_web_server_rs.Telemetry
use act_web_server_rs.Telemetry.{TelemetryPorts, TelemetryGuard, init}

pub record Host (p : Ports) : Type 1 where
  pub print : String → p.World → p.World
  pub Listener : Type 0
  -- `TcpListener::bind` on all addresses and a port
  pub bind : ℕ → p.World → Option Listener × p.World
  -- `axum::serve` with the router of a state, until a signal to stop and the requests in flight have
  -- ended; `none` is an error of its loop
  pub serve : Listener → AppState p → p.World → Option (Unit {0}) × p.World

-- `.map_err(std::io::Error::other)?`
abbrev pub io_error : {A : Type 0} → Result String A → Result AnyError A
io_error (ok a) = ok a
io_error (err e) = err (bail e)

-- the settings, where they could be resolved
abbrev pub settings : Result String (Map String) → String → Option String
settings (ok resolved) name = var resolved name
settings (err _) name = none

module _ (p : Ports) (t : TelemetryPorts p.World) (h : Host p) where
  -- `main` behind the telemetry
  unfoldable pub listen : Config p → Action p.World AnyError (Unit {0})
  listen cfg = do
    state ← start p cfg
    listener ← λ w. let (l, w') = h.bind cfg.port w in (ok_or l library, w')
    λ w. let (r, w') = h.serve listener state w in (ok_or r library, w')

  -- The guard is dropped when the block ends, on each of its paths.
  abbrev pub guarded :
      {A : Type 0} → TelemetryGuard t → Result AnyError A × p.World → Result AnyError A × p.World
  guarded guard (r, w) = (r, Telemetry.drop t guard w)

  abbrev pub with_guard :
      {A : Type 0} → Action p.World AnyError A → TelemetryGuard t → Action p.World AnyError A
  with_guard body guard w = guarded guard (body w)

  -- `main` behind `process_control`
  unfoldable pub serve_process : (String → Option String) → Action p.World AnyError (Unit {0})
  unfolding listen
  serve_process var = do
    cfg ← lift (from_env p var)
    guard ← init t var cfg.service_name
    with_guard (listen cfg) guard

  -- the `if let` on the output of `process_control`
  unfoldable pub controlled :
      (String → Option String) → Option String → Action p.World AnyError (Unit {0})
  unfolding serve_process
  controlled var (some output) w = (ok tt, h.print output w)
  controlled var none w = serve_process var w

  -- `main`, for the command line and the environment
  unfoldable pub main :
      FlagParser
      → TomlReader
      → String
      → List String
      → List (String × String)
      → Action p.World AnyError (Unit {0})
  unfolding controlled
  main f read contract argv environment = do
    let resolved = resolve_from f contract argv environment
    output ← lift (io_error (process_control read contract resolved))
    controlled (settings resolved) output
