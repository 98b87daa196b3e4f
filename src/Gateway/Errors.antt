-- ===== src/Gateway/Errors.antt =====
-- src/data_plane.rs: the errors that the parts of a request can answer.
use act_web_server_rs.Common.{List, [], ◌∷◌, ◌++◌, Bytes, ℕ, ◌≢◌, String, some, err, arith}
use act_web_server_rs.Common.Effect.{Action}
use act_web_server_rs.Operation.{WebApiMode, AuthenticatedOperation}
use act_web_server_rs.Ports.{Ports, Chunk, broken, chunk, HttpResponse}
use act_web_server_rs.Gateway.{
  GatewayError, timeout, upstream, invalid_request, invalid_response, unauthorized,
  validate_authorization, validate_identifier,
}
use act_web_server_rs.Gateway.State.{Server}
use act_web_server_rs.Gateway.Envelope.{operation_envelope, bearer_operation, attested_operation}
use act_web_server_rs.Gateway.Http.{bounded_http_get, collect, read_response}
use act_web_server_rs.Gateway.Mtls.{request}
use act_web_server_rs.Gateway.Mtls.Setup.{PersistentMtlsClient}

-- An error that no part of a request names.
pub record IsForeign (bad : GatewayError) : Type 0 where
  pub not_unauthorized : unauthorized ≢ bad
  pub not_invalid_request : invalid_request ≢ bad
  pub not_timeout : timeout ≢ bad
  pub not_upstream : upstream ≢ bad
  pub not_invalid_response : invalid_response ≢ bad

module _ (p : Ports) (bad : GatewayError) where
  -- The action does not answer `bad`.
  abbrev pub Never : {A : Type 0} → Action (Server p) GatewayError A → Type 0
  Never m = (s : Server p) → (m s).0 ≢ err bad

module _ (p : Ports) (bad : GatewayError) (foreign_ : IsForeign bad) where
  pub validate_authorization-never :
      (max : ℕ) (value : String) → validate_authorization max value ≢ err bad
  unfolding validate_authorization
  validate_authorization-never max value e = ground arith

  pub operation_envelope-Never :
      (subject : String) (mode : WebApiMode) → Never p bad (operation_envelope p subject mode)
  unfolding operation_envelope validate_identifier
  operation_envelope-Never subject mode s e = ground arith

  pub bearer_operation-Never :
      (subject authorization : String) (mode : WebApiMode)
      → Never p bad (bearer_operation p subject authorization mode)
  unfolding bearer_operation validate_identifier
  bearer_operation-Never subject authorization mode s e =
      ground (arith, validate_authorization-never p.max_authorization_bytes authorization)

  pub attested_operation-Never :
      (subject key : String) → Never p bad (attested_operation p subject key)
  unfolding attested_operation validate_identifier
  attested_operation-Never subject key s e = ground arith

  pub request-Never :
      (client : PersistentMtlsClient p) (operation : AuthenticatedOperation)
      → Never p bad (request p client operation)
  unfolding request
  request-Never client operation s e = ground arith

  pub collect-never : (body : Bytes) (stream : List Chunk) → collect body stream ≢ err bad
  unfolding collect
  collect-never body [] e = cc
  collect-never body (broken ∷ stream) e = ground arith
  collect-never body (chunk bytes ∷ stream) e = ground (arith, collect-never (body ++ bytes) stream)

  pub read_response-never : (r : HttpResponse) → read_response p r ≢ err bad
  unfolding read_response
  read_response-never r e = ground (arith, collect-never [] r.bytes_stream)

  pub bounded_http_get-Never :
      (client : p.HttpClient) (endpoint : p.Url) (authorization : String)
      → Never p bad (bounded_http_get p (some client) endpoint authorization)
  unfolding bounded_http_get
  bounded_http_get-Never client endpoint authorization s e = grind (arith, read_response-never)
