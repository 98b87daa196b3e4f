-- ===== src/Routes/Responses.antt =====
-- src/routes.rs: the statuses and the caching headers of the protected routes.
use act_web_server_rs.Common.{
  ℕ, ◌≡◌, ◌⊎◌, inl, inr, refl, String, Option, none, some, [], ◌∷◌, Result, ok, err, ok_or, arith,
  Result-cases,
}
use act_web_server_rs.Common.Effect.{Action, after, pure, lift, ◌>>=◌}
use act_web_server_rs.Common.Json.{Value}
use act_web_server_rs.Operation.{WebApiMode}
use act_web_server_rs.Ports.{Ports}
use act_web_server_rs.Auth.{
  HeaderMap, VerifiedIdentity, AuthFailure, missing, invalid, unavailable, SharedAuthVerifier,
  verify, authorization_header,
}
use act_web_server_rs.Gateway.{GatewayError}
use act_web_server_rs.Gateway.State.{Server}
use act_web_server_rs.Gateway.Transport.{read, status}
use act_web_server_rs.Routes.{
  AppState, responded, from_gateway_result, through, finish, require_auth, status_of_failure, me,
  Route, index, health_probe, ready_probe, leptos, dioxus, own_identity, data_read, operation,
  Features, value_of_reply, read_data, operation_status, serve, data_handler,
}
use act_web_server_rs.Routes.Reply.{
  empty, path_rejection, Response, ApiError, status_of_error, from_gateway, into_response,
  private_json, api_unauthorized, bare,
}
use act_web_server_rs.Routes.Laws.{IsProtected}

-- A response with no body of this program's, or with a header that forbids storing it.
abbrev pub IsUnstored : Response → Type 0
IsUnstored r =
    (r.body ≡ empty)
    ⊎ ((r.body ≡ path_rejection)
        ⊎ ((r.headers ≡ ("cache-control", "no-store") ∷ [])
            ⊎ (r.headers
                ≡ ("cache-control", "private, no-store") ∷ ("vary", "authorization") ∷ [])))

-- A status of the protected routes.
abbrev pub IsListed : ℕ → Type 0
IsListed status = (status ≡ 200) ⊎ ((status ≡ 400) ⊎ ((status ≡ 401) ⊎ (status ≡ 503)))

abbrev IsGuarded : Response → Type 0
IsGuarded r = IsUnstored r × IsListed r.status

-- A handler's result: a private JSON response, or an error with a listed status.
abbrev IsAnswer : Result ApiError Response → Type 0
IsAnswer (ok r) = (v : Value) × (r ≡ private_json v)
IsAnswer (err e) = IsListed e.status

status_of_error-IsListed : (e : GatewayError) → IsListed (status_of_error e)
unfolding status_of_error
status_of_error-IsListed e = ground arith

responded-IsGuarded : (r : Result ApiError Response) → IsAnswer r → IsGuarded (responded r)
unfolding into_response private_json
responded-IsGuarded (ok r) (v, e) = ground arith
responded-IsGuarded (err e) h = ground arith

module _ (p : Ports) where
  through-IsAnswer :
      {A : Type 0} (r : Result GatewayError A × Server p) (k : A → Value)
      → IsAnswer
          (after {S = Server p} (λ a. pure (private_json (k a))) (from_gateway_result r.0, r.1)).0
  unfolding from_gateway
  through-IsAnswer (ok a, s) k = (k a, refl)
  through-IsAnswer (err e, s) k = status_of_error-IsListed e

  with_bearer :
      {A : Type 0} (o : Option String) (call : String → Action (Server p) GatewayError A)
      (k : A → Value) (s : Server p)
      → IsAnswer
          ((lift (ok_or o api_unauthorized) >>= λ bearer.
              through (call bearer) >>= λ a. pure (private_json (k a)))
            s).0
  unfolding api_unauthorized
  with_bearer none call k s = ground arith
  with_bearer (some bearer) call k s = through-IsAnswer (call bearer s) k

  data_handler-IsGuarded :
      (state : AppState p) (mode : Option WebApiMode) (headers : HeaderMap) (i : VerifiedIdentity)
      (s : Server p)
      → IsGuarded (data_handler p state mode headers i s).0
  unfolding data_handler
  data_handler-IsGuarded state none headers i s = ground arith
  data_handler-IsGuarded state (some mode) headers i s =
      responded-IsGuarded (read_data p state i mode headers s).0 (
        with_bearer (headers authorization_header) (read p state.gateway mode i.subject)
          (value_of_reply p) s)

  operation_status-IsGuarded :
      (state : AppState p) (id : String) (headers : HeaderMap) (i : VerifiedIdentity) (s : Server p)
      → IsGuarded (finish p (operation_status p state i id headers s)).0
  unfolding operation_status
  operation_status-IsGuarded state id headers i s =
      responded-IsGuarded (operation_status p state i id headers s).0
        (with_bearer (headers authorization_header) (status p state.gateway id) (λ v. v) s)

  require_auth-IsGuarded :
      (auth : Option (SharedAuthVerifier p)) (headers : HeaderMap)
      (next : VerifiedIdentity → Server p → Response × Server p) (s : Server p)
      → ((i : VerifiedIdentity) (t : Server p) → IsGuarded (next i t).0)
      → IsGuarded (require_auth p auth headers next s).0
  unfolding require_auth
  require_auth-IsGuarded none headers next s h = ground arith
  require_auth-IsGuarded (some v) headers next s h =
      elim (Result-cases (verify p v headers s.world).0) [
        | inl (i, known) ↦
            rw (known, require_auth) (h i (record s { world = (verify p v headers s.world).1 }))
        | inr (f, refused) ↦ rw (refused, require_auth) (refusal f)
      ]
    where
      refusal : (f : AuthFailure) → IsGuarded (bare (status_of_failure p f))
      refusal missing = ground arith
      refusal invalid = ground arith
      refusal unavailable = ground arith

  -- Every response of a protected route, errors included, has status 200, 400, 401 or 503, and unless
  -- its body is empty or axum's own text for a rejected path, it carries a `cache-control` header with
  -- `no-store`.
  pub serve-guarded :
      (features : Features) (state : AppState p) (route : Route) (headers : HeaderMap)
      (s : Server p)
      → IsProtected route
      → IsUnstored (serve p features state route headers s).0
        × IsListed (serve p features state route headers s).0.status
  unfolding serve me private_json
  serve-guarded features state own_identity headers s h =
      require_auth-IsGuarded state.shared_auth headers _ s λ i t. ground arith
  serve-guarded features state (data_read mode) headers s h =
      require_auth-IsGuarded state.shared_auth headers _ s
        (data_handler-IsGuarded state (p.parse_mode mode) headers)
  serve-guarded features state (operation id) headers s h =
      require_auth-IsGuarded state.shared_auth headers _ s
        (operation_status-IsGuarded state id headers)
  serve-guarded features state index headers s h = elim h [ ]
  serve-guarded features state health_probe headers s h = elim h [ ]
  serve-guarded features state ready_probe headers s h = elim h [ ]
  serve-guarded features state leptos headers s h = elim h [ ]
  serve-guarded features state dioxus headers s h = elim h [ ]
