-- ===== src/Routes/Reply.antt =====
-- src/routes.rs: the responses, and the errors of the handlers.
use act_web_server_rs.Common.{ℕ, String, List, [], ◌∷◌}
use act_web_server_rs.Common.Json.{Value, string, object, member, end}
use act_web_server_rs.Gateway.{
  GatewayError, unauthorized, invalid_request, not_configured, backpressure, timeout, upstream,
  invalid_response, code,
}

-- A body: JSON, a page by its name, the text with which axum rejects a path, or nothing.
pub data Body : Type 0 where
  json : Value → Body
  page : String → Body
  path_rejection : Body
  empty : Body

-- A response, with the headers that the source sets.
pub record Response : Type 0 where
  pub status : ℕ
  pub headers : List (String × String)
  pub body : Body

-- `ApiError`
pub record ApiError : Type 0 where
  pub status : ℕ
  pub code : String

-- `ApiError::unauthorized`
unfoldable pub api_unauthorized : ApiError
api_unauthorized = record { status = 401; code = "unauthorized" }

-- the `match` of `ApiError::from_gateway`
unfoldable pub status_of_error : GatewayError → ℕ
status_of_error unauthorized = 401
status_of_error invalid_request = 400
status_of_error not_configured = 503
status_of_error backpressure = 503
status_of_error timeout = 503
status_of_error upstream = 503
status_of_error invalid_response = 503

-- `ApiError::from_gateway`
unfoldable pub from_gateway : GatewayError → ApiError
from_gateway e = record { status = status_of_error e; code = code e }

-- `IntoResponse for ApiError`
unfoldable pub into_response : ApiError → Response
into_response e = record {
  status = e.status;
  headers = ("cache-control", "no-store") ∷ [];
  body = json (object (member "error" (string e.code) end));
}

-- `private_json`
unfoldable pub private_json : Value → Response
private_json value = record {
  status = 200;
  headers = ("cache-control", "private, no-store") ∷ ("vary", "authorization") ∷ [];
  body = json value;
}

-- a handler's `Json(value)`
abbrev pub plain_json : Value → Response
plain_json value = record { status = 200; headers = []; body = json value }

-- a `StatusCode` as a response
abbrev pub bare : ℕ → Response
bare status = record { status = status; headers = []; body = empty }
