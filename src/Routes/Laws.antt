-- ===== src/Routes/Laws.antt =====
-- src/routes.rs and src/auth.rs: what a request to a protected route must pass.
use act_web_server_rs.Common.{◌≡◌, inl, inr, none, some, err, arith, Option-cases, Result-cases}
use act_web_server_rs.Ports.{Ports}
use act_web_server_rs.Auth.{HeaderMap, VerifiedIdentity, AuthFailure, SharedAuthVerifier, verify}
use act_web_server_rs.Auth.Laws.{IsVerified, verify_sound}
use act_web_server_rs.Gateway.State.{Server}
use act_web_server_rs.Routes.{
  AppState, Route, index, health_probe, ready_probe, leptos, dioxus, own_identity, data_read,
  operation, Features, status_of_failure, serve,
}
use act_web_server_rs.Routes.Reply.{bare}

-- The routes behind the middleware.
abbrev pub IsProtected : Route → Type 0
IsProtected own_identity = Unit
IsProtected (data_read _) = Unit
IsProtected (operation _) = Unit
IsProtected index = ⊥
IsProtected health_probe = ⊥
IsProtected ready_probe = ⊥
IsProtected leptos = ⊥
IsProtected dioxus = ⊥

module _ (p : Ports) where
  -- With no verifier configured a protected route answers 503 and does nothing.
  pub serve_unconfigured :
      (features : Features) (state : AppState p) (route : Route) (headers : HeaderMap)
      (s : Server p)
      → IsProtected route
      → state.shared_auth ≡ none
      → serve p features state route headers s ≡ (bare 503, s)
  unfolding serve
  serve_unconfigured features state own_identity headers s h e = ground arith
  serve_unconfigured features state (data_read mode) headers s h e = ground arith
  serve_unconfigured features state (operation id) headers s h e = ground arith
  serve_unconfigured features state index headers s h e = elim h [ ]
  serve_unconfigured features state health_probe headers s h e = elim h [ ]
  serve_unconfigured features state ready_probe headers s h e = elim h [ ]
  serve_unconfigured features state leptos headers s h e = elim h [ ]
  serve_unconfigured features state dioxus headers s h e = elim h [ ]

  -- A request that the verifier refuses gets its bare status, 401 without a valid identity and 503 if
  -- the authority cannot say; of the state only what the verifier did outside has changed.
  pub serve_refused :
      (features : Features) (state : AppState p) (route : Route) (headers : HeaderMap)
      (s : Server p) (v : SharedAuthVerifier p) (f : AuthFailure)
      → IsProtected route
      → state.shared_auth ≡ some v
      → (verify p v headers s.world).0 ≡ err f
      → serve p features state route headers s
        ≡ (bare (status_of_failure p f), record s { world = (verify p v headers s.world).1 })
  unfolding serve
  serve_refused features state own_identity headers s v f h e r = ground arith
  serve_refused features state (data_read mode) headers s v f h e r = ground arith
  serve_refused features state (operation id) headers s v f h e r = ground arith
  serve_refused features state index headers s v f h e r = elim h [ ]
  serve_refused features state health_probe headers s v f h e r = elim h [ ]
  serve_refused features state ready_probe headers s v f h e r = elim h [ ]
  serve_refused features state leptos headers s v f h e r = elim h [ ]
  serve_refused features state dioxus headers s v f h e r = elim h [ ]

  -- A protected route answers 200 only to a request whose identity the verifier has established.
  pub serve_authenticated :
      (features : Features) (state : AppState p) (route : Route) (headers : HeaderMap)
      (s : Server p)
      → IsProtected route
      → (serve p features state route headers s).0.status ≡ 200
      → (v : SharedAuthVerifier p) × (identity : VerifiedIdentity) × (state.shared_auth ≡ some v)
        × IsVerified p v headers s.world identity
  serve_authenticated features state route headers s h e = elim (Option-cases state.shared_auth) [
    | inl closed ↦
        let shut = serve_unconfigured features state route headers s h closed in
        absurd (ground arith)
    | inr (v, open_) ↦ elim (Result-cases (verify p v headers s.world).0) [
      | inl (identity, known) ↦
          (v, identity, open_, verify_sound p v headers s.world identity known)
      | inr (f, refused) ↦
          let shut = serve_refused features state route headers s v f h open_ refused in
          absurd (ground arith)
    ]
  ]
