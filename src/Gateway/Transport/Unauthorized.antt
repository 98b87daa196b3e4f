-- ===== src/Gateway/Transport/Unauthorized.antt =====
-- src/data_plane.rs: where the error `Unauthorized` comes from.
use act_web_server_rs.Common.{
  ℕ, zero, suc, refl, ap, Option, List, [], ◌∷◌, ◌++◌, Bytes, ◌≡◌, ◌≢◌, ◌↔◌, String, ok, err, arith,
}
use act_web_server_rs.Common.Effect.{Action}
use act_web_server_rs.Operation.{
  WebApiMode, direct_read_only_database, stateless_http, stateful_mtls_tcp, jet_stream_async,
  AuthenticatedOperation,
}
use act_web_server_rs.Ports.{Ports, Chunk, broken, chunk, HttpResponse}
use act_web_server_rs.Gateway.{
  GatewayError, unauthorized, validate_authorization, validate_identifier,
}
use act_web_server_rs.Gateway.Errors.{Never}
use act_web_server_rs.Gateway.State.{Server}
use act_web_server_rs.Gateway.Envelope.{bearer_operation, attested_operation}
use act_web_server_rs.Gateway.Http.{bounded_http_get, collect, read_response, api_endpoint}
use act_web_server_rs.Gateway.Mtls.{request}
use act_web_server_rs.Gateway.Mtls.Setup.{PersistentMtlsClient}
use act_web_server_rs.Gateway.Transport.{
  TransportGateway, read_mode, direct_read, http_read, tcp_read, jetstream_submit, read,
}
use act_web_server_rs.Gateway.Transport.Laws.{read_unauthorized}

collect-ne-unauthorized :
    (body : Bytes) (stream : List Chunk) → collect body stream ≢ err unauthorized
unfolding collect
collect-ne-unauthorized body [] e = cc
collect-ne-unauthorized body (broken ∷ stream) e = cc
collect-ne-unauthorized body (chunk bytes ∷ stream) e =
    ground (arith, collect-ne-unauthorized (body ++ bytes) stream)

module _ (p : Ports) where
  abbrev NeverUnauthorized : {A : Type 0} → Action (Server p) GatewayError A → Type 0
  NeverUnauthorized = Never p unauthorized

  read_response-ne-unauthorized : (r : HttpResponse) → read_response p r ≢ err unauthorized
  unfolding read_response
  read_response-ne-unauthorized r e = ground (arith, collect-ne-unauthorized [] r.bytes_stream)

  bounded_http_get-NeverUnauthorized :
      (http : Option p.HttpClient) (endpoint : p.Url) (authorization : String)
      → NeverUnauthorized (bounded_http_get p http endpoint authorization)
  unfolding bounded_http_get
  bounded_http_get-NeverUnauthorized http endpoint authorization s e =
      grind (arith, read_response-ne-unauthorized)

  request-NeverUnauthorized :
      (client : PersistentMtlsClient p) (operation : AuthenticatedOperation)
      → NeverUnauthorized (request p client operation)
  unfolding request
  request-NeverUnauthorized client operation s e = ground arith

  -- An operation with a well-formed bearer is refused for another reason, if at all.
  bearer_operation-NeverUnauthorized :
      (subject authorization : String)
      → validate_authorization p.max_authorization_bytes authorization ≡ ok tt
      → NeverUnauthorized (bearer_operation p subject authorization stateful_mtls_tcp)
  unfolding bearer_operation validate_identifier
  bearer_operation-NeverUnauthorized subject authorization h s e = ground arith

  attested_operation-NeverUnauthorized :
      (subject key : String) → NeverUnauthorized (attested_operation p subject key)
  unfolding attested_operation validate_identifier
  attested_operation-NeverUnauthorized subject key s e = ground arith

  module _ (g : TransportGateway p) where
    direct_read-NeverUnauthorized : (subject : String) → NeverUnauthorized (direct_read p g subject)
    unfolding direct_read
    direct_read-NeverUnauthorized subject s e = ground arith

    http_read-NeverUnauthorized :
        (authorization : String) → NeverUnauthorized (http_read p g authorization)
    unfolding http_read api_endpoint
    http_read-NeverUnauthorized authorization s e =
        grind (arith, bounded_http_get-NeverUnauthorized)

    tcp_read-NeverUnauthorized :
        (subject authorization : String)
        → validate_authorization p.max_authorization_bytes authorization ≡ ok tt
        → NeverUnauthorized (tcp_read p g subject authorization)
    unfolding tcp_read
    tcp_read-NeverUnauthorized subject authorization h s e = grind (
      arith,
      request-NeverUnauthorized,
      bearer_operation-NeverUnauthorized subject authorization h,
    )

    jetstream_submit-NeverUnauthorized :
        (subject : String) → NeverUnauthorized (jetstream_submit p g subject)
    unfolding jetstream_submit
    jetstream_submit-NeverUnauthorized subject s e =
        grind (arith, attested_operation-NeverUnauthorized)

    read_mode-NeverUnauthorized :
        (mode : WebApiMode) (subject authorization : String)
        → validate_authorization p.max_authorization_bytes authorization ≡ ok tt
        → NeverUnauthorized (read_mode p g mode subject authorization)
    unfolding read_mode
    read_mode-NeverUnauthorized direct_read_only_database subject authorization h =
        direct_read-NeverUnauthorized subject
    read_mode-NeverUnauthorized stateless_http subject authorization h =
        http_read-NeverUnauthorized authorization
    read_mode-NeverUnauthorized stateful_mtls_tcp subject authorization h =
        tcp_read-NeverUnauthorized subject authorization h
    read_mode-NeverUnauthorized jet_stream_async subject authorization h =
        jetstream_submit-NeverUnauthorized subject

    formed-NeverUnauthorized :
        (mode : WebApiMode) (subject authorization : String) (s : Server p) (k : ℕ)
        → s.permits ≡ k
        → validate_authorization p.max_authorization_bytes authorization ≡ ok tt
        → (read p g mode subject authorization s).0 ≢ err unauthorized
    unfolding read
    formed-NeverUnauthorized mode subject authorization s zero empty h e = ground arith
    formed-NeverUnauthorized mode subject authorization s (suc n) left h e =
        let inner =
          read_mode-NeverUnauthorized mode subject authorization h (record s { permits = n }) in
        ground (arith, inner)

    -- A read is refused with `Unauthorized` exactly if its authorization is not well formed, whatever the
    -- database, the API server and the broker do; and a read that is refused so has changed nothing: it
    -- has taken no permit, spent no sequence number and not touched the world.
    pub read-unauthorized_iff :
        (mode : WebApiMode) (subject authorization : String) (s : Server p)
        → (((read p g mode subject authorization s).0 ≡ err unauthorized)
            ↔ (validate_authorization p.max_authorization_bytes authorization ≢ ok tt))
          × (((read p g mode subject authorization s).0 ≡ err unauthorized)
              ↔ (read p g mode subject authorization s ≡ (err unauthorized, s)))
    read-unauthorized_iff mode subject authorization s =
        let malformed : (read p g mode subject authorization s).0 ≡ err unauthorized
            → validate_authorization p.max_authorization_bytes authorization ≢ ok tt =
          λ e h. formed-NeverUnauthorized mode subject authorization s s.permits refl h e in
        let unchanged = read_unauthorized p g mode subject authorization s in
        (
          (malformed, λ m. ap (λ x. x.0) (unchanged m)),
          (λ e. unchanged (malformed e), λ same. ap (λ x. x.0) same),
        )
