-- ===== src/Gateway/Http.antt =====
-- src/data_plane.rs: `bounded_http_get` and `api_endpoint`. The body's stream is the list of its
-- items, which the client's timeout ends in any case.
pub mod Laws
pub mod Stream
pub mod Fetch
use act_web_server_rs.Common.{
  ℕ, ◌+◌, ◌*◌, String, Bool, Option, none, some, List, [], ◌∷◌, ◌++◌, Result, ok, err, ok_or, ltb,
  leb, fail_if, length, Bytes, ◌&&◌, ◌||◌, not, if◌then◌else◌,
}
use act_web_server_rs.Common.Effect.{Action, pure, lift, ◌>>=◌, ◌>>◌}
use act_web_server_rs.Common.Outcome
use act_web_server_rs.Common.Json.{Value}
use act_web_server_rs.Ports.{
  Ports, HttpResponse, Chunk, broken, chunk, Fetched, timed_out, failed, responded,
}
use act_web_server_rs.Gateway.{
  GatewayError, timeout, upstream, not_configured, invalid_request, invalid_response,
}
use act_web_server_rs.Gateway.State.{Server, on_world}

abbrev pub max_http_response_bytes : ℕ
max_http_response_bytes = 256 * 1024

-- `StatusCode::is_success` and `is_redirection`
unfoldable pub is_success : ℕ → Bool
is_success status = leb 200 status && ltb status 300

unfoldable pub is_redirection : ℕ → Bool
is_redirection status = leb 300 status && ltb status 400

-- the `map_err` of `send().await`
abbrev pub fetched : Fetched → Result GatewayError HttpResponse
fetched timed_out = err timeout
fetched failed = err upstream
fetched (responded response) = ok response

-- `content_length().is_some_and(|length| length > MAX_HTTP_RESPONSE_BYTES)`
abbrev pub announces_more : Option ℕ → Bool
announces_more none = Bool.false
announces_more (some n) = ltb max_http_response_bytes n

-- the `while let` loop, from the bytes that `body` holds
unfoldable pub collect : Bytes → List Chunk → Result GatewayError Bytes
collect body [] = ok body
collect body (broken ∷ stream) = err upstream
collect body (chunk bytes ∷ stream) =
    let rest = collect (body ++ bytes) stream in
    if ltb max_http_response_bytes (length body + length bytes) then err invalid_response else rest

module _ (p : Ports) where
  -- what is done with a response
  unfoldable pub read_response : HttpResponse → Result GatewayError Value
  unfolding is_success is_redirection collect
  read_response r =
      if not (is_success r.status) || is_redirection r.status
      then err upstream
      else if announces_more r.content_length
      then err invalid_response
      else Outcome.◌>>=◌ (collect [] r.bytes_stream)
          (λ body. ok_or (p.parse_json body) invalid_response)

  -- `bounded_http_get`, for the field `http`
  unfoldable pub bounded_http_get :
      Option p.HttpClient → p.Url → String → Action (Server p) GatewayError Value
  unfolding read_response
  bounded_http_get http endpoint authorization = do
    client ← lift (ok_or http not_configured)
    response ← on_world p fetched (p.http_get client endpoint authorization)
    lift (read_response response)

  -- `api_endpoint`, for the field `api_url`
  unfoldable pub api_endpoint : Option p.Url → String → Result GatewayError p.Url
  api_endpoint api_url path =
      Outcome.◌>>=◌ (ok_or api_url not_configured) (λ url. ok_or (p.join url path) invalid_request)
