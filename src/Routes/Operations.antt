-- ===== src/Routes/Operations.antt =====
-- src/routes.rs with src/auth.rs and src/data_plane.rs: the answers of the route of an operation.
use act_web_server_rs.Common.{
  ◌≡◌, ◌∙◌, sym, ap, inl, inr, String, some, ok, arith, Option-cases, Result-cases,
}
use act_web_server_rs.Common.Json.{Value}
use act_web_server_rs.Ports.{Ports}
use act_web_server_rs.Auth.{
  HeaderMap, authorization_header, SharedAuthVerifier, VerifiedIdentity, verify,
}
use act_web_server_rs.Auth.Laws.{IsVerified, verify_sound}
use act_web_server_rs.Gateway.State.{Server}
use act_web_server_rs.Gateway.Transport.{status}
use act_web_server_rs.Gateway.Transport.Status.{IsReported, status_iff}
use act_web_server_rs.Routes.{
  AppState, Features, operation, serve, operation_status, authorization, finish, require_auth,
}
use act_web_server_rs.Routes.Reply.{private_json}
use act_web_server_rs.Routes.Laws.{serve_refused}
use act_web_server_rs.Routes.Success.{answer_ok}

module _ (p : Ports) where
  operation_ok :
      (state : AppState p) (id : String) (headers : HeaderMap) (i : VerifiedIdentity) (s : Server p)
      → (finish p (operation_status p state i id headers s)).0.status ≡ 200
      → (bearer : String) × (value : Value) × (headers authorization_header ≡ some bearer)
        × ((status p state.gateway id bearer s).0 ≡ ok value)
        × ((finish p (operation_status p state i id headers s)).0 ≡ private_json value)
  unfolding operation_status authorization
  operation_ok state id headers i s e =
      answer_ok p (headers authorization_header) (status p state.gateway id) (λ v. v) s e

  -- Every 200 of the route of an operation is the API server's answer to a question with the requester's
  -- own bearer under the id of the path, which is valid, to a request whose identity the verifier has
  -- established.
  pub serve_operation_sound :
      (features : Features) (state : AppState p) (id : String) (headers : HeaderMap) (s : Server p)
      → (serve p features state (operation id) headers s).0.status ≡ 200
      → (v : SharedAuthVerifier p) × (identity : VerifiedIdentity) × (bearer : String)
        × (value : Value) × (state.shared_auth ≡ some v)
        × IsVerified p v headers s.world identity
        × (headers authorization_header ≡ some bearer)
        × IsReported p state.gateway id bearer
            (record s { world = (verify p v headers s.world).1 })
            value
        × ((serve p features state (operation id) headers s).0 ≡ private_json value)
  unfolding serve require_auth
  serve_operation_sound features state id headers s e = elim (Option-cases state.shared_auth) [
    | inl closed ↦ absurd (ground arith)
    | inr (v, open_) ↦ elim (Result-cases (verify p v headers s.world).0) [
      | inr (f, refused) ↦
          let shut = serve_refused p features state (operation id) headers s v f tt open_ refused in
          absurd (ground arith)
      | inl (identity, known) ↦
          let t = record s { world = (verify p v headers s.world).1 } in
          let same : serve p features state (operation id) headers s
              ≡ finish p (operation_status p state identity id headers t) =
            ground arith in
          let (bearer, value, given, answered, made) =
            operation_ok state id headers identity t (ap (λ x. x.0.status) (sym same) ∙ e) in
          (
            v,
            identity,
            bearer,
            value,
            open_,
            verify_sound p v headers s.world identity known,
            given,
            (status_iff p state.gateway id bearer t value).0 answered,
            ap (λ x. x.0) same ∙ made,
          )
    ]
  ]
