-- ===== src/Auth.antt =====
-- src/auth.rs: the bearer of a request, its introspection, and the middleware.
pub mod Laws
use act_web_server_rs.Common.{
  ℕ, String, Bool, true, false, Option, none, some, List, [], ◌∷◌, Result, ok, err, ok_or, fail_if,
  ◌*◌, AnyError, library, ◌&&◌, ◌||◌, ◌==◌, not,
}
use act_web_server_rs.Common.Outcome
use act_web_server_rs.Common.Effect.{Action, pure, lift, ◌>>=◌, ◌>>◌}
use act_web_server_rs.Ports.{
  Ports, ClientError, unauthorized, invalid_input, missing_service_credential, invalid_base_url,
  request_too_large, response_too_large, encode, decode, transport, status, insecure_transport,
  Claims,
}
use act_web_server_rs.Common.Text.{
  any_char, is_whitespace, is_empty, trim, split_once, eq_ignore_ascii_case,
}

-- `headers.get(name).and_then(|value| value.to_str().ok())`
abbrev pub HeaderMap : Type 0
HeaderMap = String → Option String

abbrev pub authorization_header : String
authorization_header = "authorization"

abbrev pub required_scopes : List String
required_scopes = "youtube:admin" ∷ []

pub record VerifiedIdentity : Type 0 where
  pub subject : String

pub data AuthFailure : Type 0 where
  missing invalid unavailable : AuthFailure

-- `SharedAuthVerifier`
pub record SharedAuthVerifier (p : Ports) : Type 0 where
  pub client : p.AuthClient
  pub audience : String

abbrev pub max_introspection_response_bytes : ℕ
max_introspection_response_bytes = 64 * 1024

-- `map_client_error`
unfoldable pub map_client_error : ClientError → AuthFailure
map_client_error unauthorized = invalid
map_client_error invalid_input = invalid
map_client_error missing_service_credential = unavailable
map_client_error invalid_base_url = unavailable
map_client_error request_too_large = unavailable
map_client_error response_too_large = unavailable
map_client_error encode = unavailable
map_client_error decode = unavailable
map_client_error transport = unavailable
map_client_error status = unavailable
map_client_error insecure_transport = unavailable

-- the part of `bearer_token` behind `split_once`
unfoldable pub token_of : String → String → Result AuthFailure String
token_of scheme token =
    Outcome.◌>>◌
      (fail_if
        (not (eq_ignore_ascii_case scheme "Bearer")
          || is_empty token
          || not (trim token == token)
          || any_char is_whitespace token)
        invalid)
      (ok token)

-- `bearer_token`, on the header's text
unfoldable pub bearer_of : Option String → Result AuthFailure String
unfolding token_of
bearer_of header =
    Outcome.◌>>=◌ (ok_or header missing)
      λ raw. Outcome.◌>>=◌ (ok_or (split_once " " raw) invalid) λ parts. token_of parts.0 parts.1

-- `bearer_token`
unfoldable pub bearer_token : HeaderMap → Result AuthFailure String
unfolding bearer_of
bearer_token headers = bearer_of (headers authorization_header)

-- `claims.sub.filter(|subject| !subject.trim().is_empty())`
abbrev pub usable_subject : Option String → Option String
usable_subject none = none
usable_subject (some subject) = elim (is_empty (trim subject)) [
  | true ↦ none
  | false ↦ some subject
]

abbrev pub has_audience : Option String → String → Bool
has_audience none audience = false
has_audience (some aud) audience = aud == audience

-- what `verify` does with the claims
unfoldable pub identity_of : Claims → String → Result AuthFailure VerifiedIdentity
identity_of claims audience =
    Outcome.◌>>◌ (fail_if (not claims.active || not (has_audience claims.aud audience)) invalid) (
      Outcome.◌>>=◌ (ok_or (usable_subject claims.sub) invalid)
        λ subject. ok (record { subject = subject }))

-- `.map_err(map_client_error)`
abbrev pub introspected : {A : Type 0} → Result ClientError A → Result AuthFailure A
introspected (ok a) = ok a
introspected (err e) = err (map_client_error e)

module _ (p : Ports) where
  -- `SharedAuthVerifier::new`
  unfoldable pub new : String → String → String → Result AnyError (SharedAuthVerifier p)
  new base_url service_credential audience =
      Outcome.◌>>=◌
        (ok_or
          (p.auth_client (record {
            base_url = base_url;
            service_credential = service_credential;
            max_response_bytes = max_introspection_response_bytes;
          }))
          library)
        λ client. ok (record { client = client; audience = audience })

  -- `SharedAuthVerifier::verify`
  unfoldable pub verify :
      SharedAuthVerifier p → HeaderMap → Action p.World AuthFailure VerifiedIdentity
  unfolding bearer_token identity_of
  verify v headers = do
    token ← lift (bearer_token headers)
    claims ← λ w.
        let (r, w') = p.introspect v.client token v.audience required_scopes w in
        (introspected r, w')
    lift (identity_of claims v.audience)
