-- ===== src/Main/Laws.antt =====
-- src/main.rs: a process that has started from a configuration of `from_env`.
use act_web_server_rs.Common.{
  ◌<◌, ◌≡◌, ◌∙◌, ◌↔◌, inl, inr, refl, ap, String, Bool, Option, true, false, none, some, ok, err,
  arith, Option-cases,
}
use act_web_server_rs.Operation.{
  WebApiMode, direct_read_only_database, stateless_http, stateful_mtls_tcp, jet_stream_async,
}
use act_web_server_rs.Ports.{Ports}
use act_web_server_rs.Config.{Config, Env, from_env}
use act_web_server_rs.Config.Laws.{IsValid, from_env-IsValid}
use act_web_server_rs.Gateway.{validate_authorization, not_configured}
use act_web_server_rs.Gateway.State.{Server}
use act_web_server_rs.Gateway.Transport.{read}
use act_web_server_rs.Gateway.Transport.Configured.{is_enabled, read-not_configured_iff}
use act_web_server_rs.Routes.{AppState, ready}
use act_web_server_rs.Ui.Browser.{last_member}
use act_web_server_rs.Ui.Script.Served.{json_of_body}
use act_web_server_rs.Common.Json.{Value, null, bool, number, string, array, object}
use act_web_server_rs.Main.{start}
use act_web_server_rs.Main.Wiring.{IsWired, start-IsWired}

-- the name of a mode in the answer of `/ready`
abbrev pub name_of : WebApiMode → String
name_of direct_read_only_database = "direct_read_only_database"
name_of stateless_http = "stateless_http"
name_of stateful_mtls_tcp = "stateful_mtls_tcp"
name_of jet_stream_async = "jet_stream_async"

-- what an object has under a name
abbrev pub member_of : String → Option Value → Option Value
member_of name none = none
member_of name (some (object members)) = last_member name members
member_of name (some null) = none
member_of name (some (bool _)) = none
member_of name (some (number _)) = none
member_of name (some (string _)) = none
member_of name (some (array _)) = none

module _ (p : Ports) where
  -- what the body of the answer of `/ready` has for a mode
  abbrev pub shown_flag : AppState p → WebApiMode → Option Value
  shown_flag state mode =
      member_of (name_of mode) (member_of "modes" (json_of_body (ready p state).body))

  abbrev flag : AppState p → WebApiMode → Bool
  flag state direct_read_only_database = state.direct_database_connected
  flag state stateless_http = state.stateless_http_configured
  flag state stateful_mtls_tcp = state.stateful_mtls_configured
  flag state jet_stream_async = state.jetstream_configured

  shown_flag_lem :
      (state : AppState p) (mode : WebApiMode)
      → shown_flag state mode ≡ some (bool (flag state mode))
  unfolding ready last_member
  shown_flag_lem state direct_read_only_database = refl
  shown_flag_lem state stateless_http = refl
  shown_flag_lem state stateful_mtls_tcp = refl
  shown_flag_lem state jet_stream_async = refl

  flag-is_enabled :
      (c : Config p) (state : AppState p) (mode : WebApiMode)
      → IsWired p c state
      → IsValid p c
      → flag state mode ≡ is_enabled p state.gateway mode
  flag-is_enabled c state direct_read_only_database wired valid = wired.direct
  flag-is_enabled c state stateless_http wired valid = wired.http
  flag-is_enabled c state stateful_mtls_tcp wired valid = wired.tcp
  flag-is_enabled c state jet_stream_async wired valid = elim (Option-cases c.nats_url) [
    | inl absent ↦ ground (arith, wired.nats, wired.jetstream)
    | inr (url, given) ↦
        let (v, a, key) = valid.nats url given in ground (arith, wired.jetstream, wired.key)
  ]

  -- In a process that has started from variables that `from_env` accepts, the JSON that `/ready` answers
  -- has for each mode a Boolean under the mode's name, which is true exactly if the gateway has all that
  -- the mode needs: a read with a well-formed authorization, while a permit is left, answers
  -- `NotConfigured` exactly if this Boolean is false.
  pub start_flags :
      (env : Env) (c : Config p) (w : p.World) (state : AppState p) (mode : WebApiMode)
      (subject authorization : String) (s : Server p)
      → from_env p env ≡ ok c
      → (start p c w).0 ≡ ok state
      → validate_authorization p.max_authorization_bytes authorization ≡ ok tt
      → 0 < s.permits
      → (shown_flag state mode ≡ some (bool (is_enabled p state.gateway mode)))
        × (((read p state.gateway mode subject authorization s).0 ≡ err not_configured)
            ↔ (shown_flag state mode ≡ some (bool false)))
  start_flags env c w state mode subject authorization s accepted started well free =
      let wired = start-IsWired p c w state started in
      let same = flag-is_enabled c state mode wired (from_env-IsValid p env c accepted) in
      let shown : shown_flag state mode ≡ some (bool (is_enabled p state.gateway mode)) =
        shown_flag_lem state mode ∙ ap (λ v. some (bool v)) same in
      let refused =
        read-not_configured_iff p state.gateway mode subject authorization s wired.paired well
          free in
      (
        shown,
        (
          (λ e. shown ∙ ap (λ v. some (bool v)) (refused.0 e)),
          (λ e. refused.1 (ground (arith, shown))),
        ),
      )

  enabled_closed :
      (c : Config p) (state : AppState p) (mode : WebApiMode)
      → IsWired p c state
      → IsValid p c
      → state.shared_auth ≡ none
      → is_enabled p state.gateway mode ≡ true
      → mode ≡ direct_read_only_database
  enabled_closed c state direct_read_only_database wired valid closed on = refl
  enabled_closed c state stateless_http wired valid closed on =
      absurd (ground (arith, valid.authenticated, wired.api_url, wired.auth))
  enabled_closed c state stateful_mtls_tcp wired valid closed on =
      absurd (ground (arith, valid.authenticated, wired.mtls, wired.auth))
  enabled_closed c state jet_stream_async wired valid closed on =
      absurd (ground (arith, valid.authenticated, wired.nats, wired.auth))

  -- In a process that has started from variables that `from_env` accepts, no mode but
  -- the direct read is enabled while Shared Auth is not configured.
  pub start_closed :
      (env : Env) (c : Config p) (w : p.World) (state : AppState p) (mode : WebApiMode)
      → from_env p env ≡ ok c
      → (start p c w).0 ≡ ok state
      → state.shared_auth ≡ none
      → is_enabled p state.gateway mode ≡ true
      → mode ≡ direct_read_only_database
  start_closed env c w state mode accepted started closed on =
      let wired = start-IsWired p c w state started in
      enabled_closed c state mode wired (from_env-IsValid p env c accepted) closed on
