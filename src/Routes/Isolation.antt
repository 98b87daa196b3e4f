-- ===== src/Routes/Isolation.antt =====
-- src/routes.rs with src/auth.rs and src/data_plane.rs: whose data the data route answers with.
use act_web_server_rs.Common.{ok, ◌≡◌, ◌↔◌, ap, sym, ◌∙◌, String, some}
use act_web_server_rs.Operation.{WebApiMode}
use act_web_server_rs.Ports.{Ports}
use act_web_server_rs.Auth.{
  HeaderMap, authorization_header, SharedAuthVerifier, VerifiedIdentity, verify,
}
use act_web_server_rs.Auth.Laws.{IsVerified}
use act_web_server_rs.Gateway.{GatewayReply}
use act_web_server_rs.Gateway.State.{Server}
use act_web_server_rs.Gateway.Transport.Provenance.{IsAdmitted, read_iff}
use act_web_server_rs.Routes.{AppState, Features, data_read, serve, value_of_reply}
use act_web_server_rs.Routes.Reply.{Response, private_json}
use act_web_server_rs.Routes.Success.{serve_data_sound, serve_data_complete}

module _ (p : Ports) (features : Features) (state : AppState p) (name : String) where
  -- The verifier has established an identity from this request, and the gateway has read for its
  -- subject, with the request's own bearer, in the mode that the path names.
  pub record IsServed (headers : HeaderMap) (s : Server p) : Type 0 where
    pub v : SharedAuthVerifier p
    pub identity : VerifiedIdentity
    pub mode : WebApiMode
    pub bearer : String
    pub reply : GatewayReply
    pub open_ : state.shared_auth ≡ some v
    pub known : (verify p v headers s.world).0 ≡ ok identity
    pub verified : IsVerified p v headers s.world identity
    pub named : p.parse_mode name ≡ some mode
    pub given : headers authorization_header ≡ some bearer
    pub read :
        IsAdmitted p state.gateway identity.subject bearer mode
          (record s { world = (verify p v headers s.world).1 })
          reply

  serve-IsServed :
      (headers : HeaderMap) (s : Server p)
      → (serve p features state (data_read name) headers s).0.status ≡ 200
      → IsServed headers s
  serve-IsServed headers s e =
      let (v, identity, mode, bearer, reply, open_, known, verified, named, given, answered, made) =
        serve_data_sound p features state name headers s e in
      record {
        v = v;
        identity = identity;
        mode = mode;
        bearer = bearer;
        reply = reply;
        open_ = open_;
        known = known;
        verified = verified;
        named = named;
        given = given;
        read =
            (read_iff p state.gateway identity.subject bearer mode
                (record s { world = (verify p v headers s.world).1 }) reply).0
              answered;
      }

  response_of_IsServed :
      (headers : HeaderMap) (s : Server p) (h : IsServed headers s)
      → (serve p features state (data_read name) headers s).0
        ≡ private_json (value_of_reply p h.reply)
  response_of_IsServed headers s h =
      let answered =
        (read_iff p state.gateway h.identity.subject h.bearer h.mode
            (record s { world = (verify p h.v headers s.world).1 }) h.reply).1
          h.read in
      ap (λ x. x.0)
        (serve_data_complete p features state name h.bearer headers s h.v h.identity h.mode h.reply
          h.open_ h.known h.named h.given answered)

  -- The data route answers with `r`, and its status is 200, exactly if the verifier has established an
  -- identity from this request, the source of the mode that the path names has given a reply for the
  -- subject of this identity, and `r` is this reply and nothing else: from the database its rows for
  -- this subject, from the API server its answer to a request with this bearer or its reply to an
  -- operation of this subject with this bearer, from the broker its acknowledgement of a signed
  -- operation of this subject.
  pub serve_data_iff :
      (headers : HeaderMap) (s : Server p) (r : Response)
      → (((serve p features state (data_read name) headers s).0 ≡ r) × (r.status ≡ 200))
        ↔ ((h : IsServed headers s) × (r ≡ private_json (value_of_reply p h.reply)))
  unfolding private_json
  serve_data_iff headers s r = (
    λ (e, good).
        let h = serve-IsServed headers s (ap (λ x. x.status) e ∙ good) in
        (h, sym e ∙ response_of_IsServed headers s h),
    λ (h, e). (response_of_IsServed headers s h ∙ sym e, ap (λ x. x.status) e),
  )
