-- ===== src/Routes/Success.antt =====
-- src/routes.rs: the data route's answers with 200.
use act_web_server_rs.Common.{
  ◌≡◌, inl, inr, refl, sym, ap, ◌∙◌, ◌≢◌, String, Option, none, some, Result, ok, ok_or, arith,
  Option-cases, Result-cases,
}
use act_web_server_rs.Common.Effect.{Action, pure, lift, ◌>>=◌}
use act_web_server_rs.Common.Json.{Value}
use act_web_server_rs.Operation.{WebApiMode}
use act_web_server_rs.Ports.{Ports}
use act_web_server_rs.Auth.{
  HeaderMap, VerifiedIdentity, SharedAuthVerifier, verify, authorization_header,
}
use act_web_server_rs.Auth.Laws.{IsVerified, verify_sound}
use act_web_server_rs.Gateway.{GatewayError, GatewayReply}
use act_web_server_rs.Gateway.State.{Server}
use act_web_server_rs.Gateway.Transport.{read}
use act_web_server_rs.Routes.{
  AppState, authorization, responded, through, require_auth, data_read, Features, value_of_reply,
  read_data, serve, data_handler,
}
use act_web_server_rs.Routes.Reply.{
  Response, ApiError, status_of_error, from_gateway, into_response, private_json, api_unauthorized,
}
use act_web_server_rs.Routes.Laws.{serve_refused}

status_of_error-IsFailure : (e : GatewayError) → status_of_error e ≢ 200
unfolding status_of_error
status_of_error-IsFailure e = ground arith

module _ (p : Ports) where
  abbrev pub answer :
      {A : Type 0}
      → Option String
      → (String → Action (Server p) GatewayError A)
      → (A → Value)
      → Server p
      → Result ApiError Response
  answer o call k s =
      ((lift (ok_or o api_unauthorized) >>= λ bearer.
      through (call bearer) >>= λ a. pure (private_json (k a)))
        s).0

  pub answer_ok :
      {A : Type 0} (o : Option String) (call : String → Action (Server p) GatewayError A)
      (k : A → Value) (s : Server p)
      → (responded (answer o call k s)).status ≡ 200
      → (bearer : String) × (a : A) × (o ≡ some bearer)
        × ((call bearer s).0 ≡ ok a)
        × (responded (answer o call k s) ≡ private_json (k a))
  unfolding api_unauthorized private_json into_response from_gateway
  answer_ok none call k s e = absurd (ground arith)
  answer_ok (some bearer) call k s e = elim (Result-cases (call bearer s).0) [
    | inl (a, answered) ↦ (bearer, a, refl, answered, ground arith)
    | inr (f, refused) ↦ let listed = status_of_error-IsFailure f in absurd (ground arith)
  ]

  data_handler_ok :
      (state : AppState p) (o : Option WebApiMode) (headers : HeaderMap) (i : VerifiedIdentity)
      (s : Server p)
      → (data_handler p state o headers i s).0.status ≡ 200
      → (mode : WebApiMode) × (bearer : String) × (reply : GatewayReply) × (o ≡ some mode)
        × (headers authorization_header ≡ some bearer)
        × ((read p state.gateway mode i.subject bearer s).0 ≡ ok reply)
        × ((data_handler p state o headers i s).0 ≡ private_json (value_of_reply p reply))
  unfolding data_handler read_data authorization
  data_handler_ok state none headers i s e = absurd (ground arith)
  data_handler_ok state (some mode) headers i s e =
      let (bearer, reply, given, answered, same) =
        answer_ok (headers authorization_header) (read p state.gateway mode i.subject)
          (value_of_reply p) s e in
      (mode, bearer, reply, refl, given, answered, same)

  -- Every 200 of the data route is the reply of a gateway read in the mode that the path names, for
  -- the subject that the state's verifier has established from this request, with the request's own
  -- authorization header.
  pub serve_data_sound :
      (features : Features) (state : AppState p) (name : String) (headers : HeaderMap)
      (s : Server p)
      → (serve p features state (data_read name) headers s).0.status ≡ 200
      → (v : SharedAuthVerifier p) × (identity : VerifiedIdentity) × (mode : WebApiMode)
        × (authorization : String) × (reply : GatewayReply) × (state.shared_auth ≡ some v)
        × ((verify p v headers s.world).0 ≡ ok identity)
        × IsVerified p v headers s.world identity
        × (p.parse_mode name ≡ some mode)
        × (headers authorization_header ≡ some authorization)
        × ((read p state.gateway mode identity.subject authorization
              (record s { world = (verify p v headers s.world).1 })).0
            ≡ ok reply)
        × ((serve p features state (data_read name) headers s).0
            ≡ private_json (value_of_reply p reply))
  unfolding serve require_auth
  serve_data_sound features state name headers s e = elim (Option-cases state.shared_auth) [
    | inl closed ↦ absurd (ground arith)
    | inr (v, open_) ↦ elim (Result-cases (verify p v headers s.world).0) [
      | inr (f, refused) ↦
          let shut =
            serve_refused p features state (data_read name) headers s v f tt open_ refused in
          absurd (ground arith)
      | inl (identity, known) ↦
          let t = record s { world = (verify p v headers s.world).1 } in
          let same : serve p features state (data_read name) headers s
              ≡ data_handler p state (p.parse_mode name) headers identity t =
            ground arith in
          let (mode, bearer, reply, named, given, answered, made) =
            data_handler_ok state (p.parse_mode name) headers identity t (rw (sym same) e) in
          (
            v,
            identity,
            mode,
            bearer,
            reply,
            open_,
            known,
            verify_sound p v headers s.world identity known,
            named,
            given,
            answered,
            ap (λ x. x.0) same ∙ made,
          )
    ]
  ]

  data_handler_complete :
      (state : AppState p) (mode : WebApiMode) (headers : HeaderMap) (identity : VerifiedIdentity)
      (bearer : String) (reply : GatewayReply) (s : Server p)
      → headers authorization_header ≡ some bearer
      → (read p state.gateway mode identity.subject bearer s).0 ≡ ok reply
      → data_handler p state (some mode) headers identity s ≡ (
        private_json (value_of_reply p reply),
        (read p state.gateway mode identity.subject bearer s).1,
      )
  unfolding data_handler read_data authorization
  data_handler_complete state mode headers identity bearer reply s given answered = ground arith

  -- A request with an identity that the verifier establishes, for a mode that exists, whose read
  -- succeeds, is answered with that reply, and what has changed is what the verifier and then the read
  -- have changed.
  pub serve_data_complete :
      (features : Features) (state : AppState p) (name bearer : String) (headers : HeaderMap)
      (s : Server p) (v : SharedAuthVerifier p) (identity : VerifiedIdentity) (mode : WebApiMode)
      (reply : GatewayReply)
      → state.shared_auth ≡ some v
      → (verify p v headers s.world).0 ≡ ok identity
      → p.parse_mode name ≡ some mode
      → headers authorization_header ≡ some bearer
      → (read p state.gateway mode identity.subject bearer
          (record s { world = (verify p v headers s.world).1 })).0
        ≡ ok reply
      → serve p features state (data_read name) headers s ≡ (
        private_json (value_of_reply p reply),
        (read p state.gateway mode identity.subject bearer
            (record s { world = (verify p v headers s.world).1 })).1,
      )
  unfolding serve require_auth
  serve_data_complete features state name bearer headers s v identity mode reply open_ known named
        given answered =
      let t = record s { world = (verify p v headers s.world).1 } in
      ground
        (arith, data_handler_complete state mode headers identity bearer reply t given answered)
