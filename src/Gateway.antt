-- ===== src/Gateway.antt =====
-- src/data_plane.rs: the gateway's replies and errors, its state, and the checks of what it is given.
-- The children model the transports and `TransportGateway`.
use act_web_server_rs.Common.{
  ℕ, ◌<◌, String, Bool, Option, Result, ok, err, fail_if, ok_or, ◌||◌, ◌==◌, not, ltb,
}
use act_web_server_rs.Common.Outcome.{◌>>=◌, ◌>>◌}
use act_web_server_rs.Common.Json.{Value}
use act_web_server_rs.Common.Text.{
  any_char, is_whitespace, is_control, is_empty, trim, strip_prefix,
}
use act_web_server_rs.Operation.{WebApiMode}
use act_web_server_rs.Ports.{Ports}
use Prim.Native.String.{len}
pub mod Errors
pub mod Validation
pub mod State
pub mod Keeps
pub mod Envelope
pub mod Link
pub mod Mtls
pub mod Http
pub mod Transport
pub mod Overlap

-- `GatewayReply`
pub data GatewayReply : Type 0 where
  projection : WebApiMode → Value → GatewayReply
  accepted : String → String → GatewayReply

-- `GatewayError`
pub data GatewayError : Type 0 where
  unauthorized invalid_request not_configured backpressure : GatewayError
  timeout upstream invalid_response : GatewayError

-- `GatewayError::code`
unfoldable pub code : GatewayError → String
code unauthorized = "unauthorized"
code invalid_request = "invalid_request"
code not_configured = "transport_not_configured"
code backpressure = "backpressure"
code timeout = "upstream_timeout"
code upstream = "upstream_unavailable"
code invalid_response = "upstream_unavailable"

-- `validate_authorization`, for the limit `MAX_AUTHORIZATION_BYTES`
unfoldable pub validate_authorization : ℕ → String → Result GatewayError (Unit {0})
validate_authorization max value = do
  token ← ok_or (strip_prefix "Bearer " value) unauthorized
  fail_if
      (ltb max (len value)
        || is_empty token
        || not (trim token == token)
        || any_char is_whitespace token)
      unauthorized
  ok tt

-- `validate_identifier`
unfoldable pub validate_identifier : String → ℕ → Result GatewayError (Unit {0})
validate_identifier value maximum = do
  fail_if
      (is_empty value
        || ltb maximum (len value)
        || not (trim value == value)
        || any_char is_control value)
      invalid_request
  ok tt
