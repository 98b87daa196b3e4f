-- ===== src/Tests/Serving.antt =====
-- The routes at concrete requests.
use act_web_server_rs.Common.{◌↔◌, ◌≡◌, refl, ok, some, String}
use act_web_server_rs.Operation.{stateless_http}
use act_web_server_rs.Auth.{verify, VerifiedIdentity, SharedAuthVerifier, authorization_header}
use act_web_server_rs.Auth.Laws.{IsVerified}
use act_web_server_rs.Gateway.{projection}
use act_web_server_rs.Gateway.Transport.{read, read_mode, try_acquire, http_read}
use act_web_server_rs.Gateway.Http.{
  api_endpoint, bounded_http_get, read_response, collect, is_success, is_redirection,
}
use act_web_server_rs.Routes.{
  serve, own_identity, data_read, value_of_reply, require_auth, data_handler, read_data, me,
  authorization,
}
use act_web_server_rs.Routes.Reply.{private_json}
use act_web_server_rs.Routes.Laws.{serve_authenticated}
use act_web_server_rs.Common.Json.{Value}
use act_web_server_rs.Common.Text.{
  is_empty, trim, trim_start, trim_end, trim_last, is_whitespace, any_char, is_control,
}
use act_web_server_rs.Gateway.{validate_identifier}
use act_web_server_rs.Gateway.Transport.{status}
use act_web_server_rs.Gateway.Transport.Status.{IsReported}
use act_web_server_rs.Routes.{operation, operation_status}
use act_web_server_rs.Routes.Reply.{Response}
use act_web_server_rs.Routes.Operations.{serve_operation_sound}
use act_web_server_rs.Routes.Isolation.{IsServed, serve_data_iff}
use act_web_server_rs.Routes.Responses.{IsUnstored, IsListed, serve-guarded}
use act_web_server_rs.Tests.Bearer.{known_actor, well_formed}
use act_web_server_rs.Tests.Fixture.{ports, status_body}
use act_web_server_rs.Tests.State.{gateway, features, state, headers, server, verifier}

identified : (serve ports features state own_identity headers server).0.status ≡ 200
unfolding serve require_auth me private_json
identified = rw known_actor refl

serve_authenticated_example :
    (v : SharedAuthVerifier ports) × (identity : VerifiedIdentity) × (some verifier ≡ some v)
    × IsVerified ports v headers 0 identity
serve_authenticated_example =
    serve_authenticated ports features state own_identity headers server tt identified

serve-guarded_example :
    IsUnstored (serve ports features state (data_read "stateless_http") headers server).0
    × IsListed (serve ports features state (data_read "stateless_http") headers server).0.status
serve-guarded_example =
    serve-guarded ports features state (data_read "stateless_http") headers server tt

status_read :
    (serve ports features state (data_read "stateless_http") headers server).0.status ≡ 200
unfolding serve require_auth data_handler read_data authorization private_json read read_mode
    try_acquire http_read api_endpoint bounded_http_get read_response collect is_success
    is_redirection
status_read = rw (known_actor, well_formed) refl

abbrev shown : Response
shown = private_json (value_of_reply ports (projection stateless_http status_body))

serve_data_iff_example :
    (((serve ports features state (data_read "stateless_http") headers server).0 ≡ shown)
      × (shown.status ≡ 200))
    ↔ ((h : IsServed ports features state "stateless_http" headers server) × (shown
          ≡ private_json (value_of_reply ports h.reply)))
serve_data_iff_example = serve_data_iff ports features state "stateless_http" headers server shown

answered :
    (read ports gateway stateless_http "actor-1" "Bearer token"
      (record server { world = (verify ports verifier headers 0).1 })).0
    ≡ ok (projection stateless_http status_body)
unfolding read read_mode try_acquire http_read api_endpoint bounded_http_get read_response collect
    is_success is_redirection
answered = rw well_formed refl

-- the route of the operation `op-1`
reported : (serve ports features state (operation "op-1") headers server).0.status ≡ 200
unfolding serve require_auth operation_status authorization private_json status validate_identifier
    api_endpoint bounded_http_get read_response collect is_success is_redirection is_empty trim
    trim_start trim_end trim_last is_whitespace any_char is_control
reported = rw known_actor refl

serve_operation_sound_example :
    (v : SharedAuthVerifier ports) × (identity : VerifiedIdentity) × (bearer : String)
    × (value : Value) × (some verifier ≡ some v)
    × IsVerified ports v headers 0 identity
    × (headers authorization_header ≡ some bearer)
    × IsReported ports gateway "op-1" bearer
        (record server { world = (verify ports v headers 0).1 })
        value
    × ((serve ports features state (operation "op-1") headers server).0 ≡ private_json value)
serve_operation_sound_example =
    serve_operation_sound ports features state "op-1" headers server reported
