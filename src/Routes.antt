-- ===== src/Routes.antt =====
-- src/routes.rs, src/state.rs and the middleware of src/auth.rs: the handlers and the routes. The
-- routing table is axum's: a route here is what it has matched, its parameters decoded.
pub mod Reply
pub mod Bearer
pub mod Laws
pub mod Responses
pub mod Success
pub mod Isolation
pub mod Operations
use act_web_server_rs.Common.{
  ℕ, String, Bool, true, false, Option, none, some, List, [], ◌∷◌, Result, ok, err, ok_or, is_some,
}
use act_web_server_rs.Common.Outcome
use act_web_server_rs.Common.Effect.{Action, pure, lift, ◌>>=◌, ◌>>◌}
use act_web_server_rs.Common.Json.{Value, string, bool, object, member, end}
use act_web_server_rs.Operation.{
  WebApiMode, direct_read_only_database, stateless_http, stateful_mtls_tcp, jet_stream_async,
}
use act_web_server_rs.Ports.{Ports}
use act_web_server_rs.Auth.{
  HeaderMap, authorization_header, VerifiedIdentity, AuthFailure, missing, invalid, unavailable,
  SharedAuthVerifier, verify,
}
use act_web_server_rs.Gateway.{
  GatewayReply, projection, accepted, GatewayError, unauthorized, invalid_request, not_configured,
  backpressure, timeout, upstream, invalid_response, code,
}
use act_web_server_rs.Gateway.State.{Server}
use act_web_server_rs.Routes.Reply.{
  Body, json, page, path_rejection, empty, Response, ApiError, api_unauthorized, status_of_error,
  from_gateway, into_response, private_json, plain_json, bare,
}
use act_web_server_rs.Gateway.Transport.{TransportGateway, read, status}

-- `AppState`
pub record AppState (p : Ports) : Type 0 where
  pub shared_auth : Option (SharedAuthVerifier p)
  pub gateway : TransportGateway p
  pub direct_database_connected : Bool
  pub stateless_http_configured : Bool
  pub stateful_mtls_configured : Bool
  pub jetstream_configured : Bool

-- `authorization`
unfoldable pub authorization : HeaderMap → Result ApiError String
authorization headers = ok_or (headers authorization_header) api_unauthorized

-- `result.map_err(ApiError::from_gateway)` of a handler's call
abbrev pub from_gateway_result : {A : Type 0} → Result GatewayError A → Result ApiError A
from_gateway_result (ok a) = ok a
from_gateway_result (err e) = err (from_gateway e)

abbrev pub through : {S A : Type 0} → Action S GatewayError A → Action S ApiError A
through m s = let (r, s') = m s in (from_gateway_result r, s')

-- a handler's result as a response
abbrev pub responded : Result ApiError Response → Response
responded (ok r) = r
responded (err e) = into_response e

-- `health`
unfoldable pub health : Response
health = plain_json (object (member "status" (string "ok") end))

-- `me`
unfoldable pub me : VerifiedIdentity → Response
unfolding private_json
me identity = private_json (object (member "sub" (string identity.subject) end))

-- what the router has matched
pub data Route : Type 0 where
  index health_probe ready_probe leptos dioxus : Route
  own_identity : Route
  data_read : String → Route
  operation : String → Route

-- the path of a route, where it has no parameter
unfoldable pub path_of : Route → Option String
path_of index = some "/"
path_of health_probe = some "/health"
path_of ready_probe = some "/ready"
path_of leptos = some "/ui/leptos"
path_of dioxus = some "/ui/dioxus"
path_of own_identity = some "/api/me"
path_of (data_read _) = none
path_of (operation _) = none

-- the two Cargo features
pub record Features : Type 0 where
  pub ui_leptos : Bool
  pub ui_dioxus : Bool

module _ (p : Ports) where
  -- `json!(reply)`
  unfoldable pub value_of_reply : GatewayReply → Value
  value_of_reply (projection mode content) = object (
      member "result" (string "projection")
        (member "mode" (p.value_of_mode mode) (member "data" content end)))
  value_of_reply (accepted operation_id status) = object (
      member "result" (string "accepted")
        (member "operation_id" (string operation_id) (member "status" (string status) end)))

  -- `ready`
  unfoldable pub ready : AppState p → Response
  ready state = plain_json (
      object (
        member "ready" (bool true) (
          member "shared_auth_configured" (bool (is_some state.shared_auth)) (
            member "modes"
              (object (
                member "direct_read_only_database" (bool state.direct_database_connected) (
                  member "stateless_http" (bool state.stateless_http_configured) (
                    member "stateful_mtls_tcp" (bool state.stateful_mtls_configured)
                      (member "jet_stream_async" (bool state.jetstream_configured) end)))))
              end))))

  -- `read_data`, behind its `Path` extractor
  unfoldable pub read_data :
      AppState p → VerifiedIdentity → WebApiMode → HeaderMap → Action (Server p) ApiError Response
  unfolding authorization value_of_reply private_json
  read_data state identity mode headers = do
    bearer ← lift (authorization headers)
    reply ← through (read p state.gateway mode identity.subject bearer)
    pure (private_json (value_of_reply reply))

  -- `operation_status`
  unfoldable pub operation_status :
      AppState p → VerifiedIdentity → String → HeaderMap → Action (Server p) ApiError Response
  unfolding authorization private_json
  operation_status state identity operation_id headers = do
    bearer ← lift (authorization headers)
    reply ← through (status p state.gateway operation_id bearer)
    pure (private_json reply)

  -- the status of a refusal in `require_auth`
  abbrev pub status_of_failure : AuthFailure → ℕ
  status_of_failure missing = 401
  status_of_failure invalid = 401
  status_of_failure unavailable = 503

  abbrev pub continue :
      (VerifiedIdentity → Server p → Response × Server p)
      → Result AuthFailure VerifiedIdentity
      → Server p
      → Response × Server p
  continue next (ok identity) s = next identity s
  continue next (err failure) s = (bare (status_of_failure failure), s)

  -- `require_auth` round the handler `next`
  unfoldable pub require_auth :
      Option (SharedAuthVerifier p)
      → HeaderMap
      → (VerifiedIdentity → Server p → Response × Server p)
      → Server p
      → Response × Server p
  require_auth none headers next s = (bare 503, s)
  require_auth (some verifier) headers next s =
      let (r, w) = verify p verifier headers s.world in continue next r (record s { world = w })

  abbrev pub finish : Result ApiError Response × Server p → Response × Server p
  finish (r, s) = (responded r, s)

  -- the data route's handler behind the extractor of its path, which rejects a text that is no mode
  unfoldable pub data_handler :
      AppState p → Option WebApiMode → HeaderMap → VerifiedIdentity → Server p → Response × Server p
  unfolding read_data
  data_handler state none headers identity s =
      (record { status = 400; headers = []; body = path_rejection }, s)
  data_handler state (some mode) headers identity s =
      finish (read_data state identity mode headers s)

  abbrev pub feature : Bool → String → Server p → Response × Server p
  feature true name s = (record { status = 200; headers = []; body = page name }, s)
  feature false name s = (bare 404, s)

  -- `router`: the handler of each route, the protected ones behind the middleware
  unfoldable pub serve : Features → AppState p → Route → HeaderMap → Server p → Response × Server p
  unfolding ready health me data_handler operation_status require_auth
  serve features state index headers s =
      (record { status = 200; headers = []; body = page "index" }, s)
  serve features state health_probe headers s = (health, s)
  serve features state ready_probe headers s = (ready state, s)
  serve features state leptos headers s = feature features.ui_leptos "leptos" s
  serve features state dioxus headers s = feature features.ui_dioxus "dioxus" s
  serve features state own_identity headers s =
      require_auth state.shared_auth headers (λ i s'. (me i, s')) s
  serve features state (data_read mode) headers s =
      require_auth state.shared_auth headers (data_handler state (p.parse_mode mode) headers) s
  serve features state (operation id) headers s =
      require_auth state.shared_auth headers
        (λ i s'. finish (operation_status state i id headers s')) s
