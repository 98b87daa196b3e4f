-- ===== src/Gateway/Transport/Permits.antt =====
-- The permits over a request.
use act_web_server_rs.Common.{◌-◌, ◌≡◌, ◌↔◌, String, Option, ok, err, arith}
use act_web_server_rs.Common.Effect.{Action}
use act_web_server_rs.Operation.{
  WebApiMode, direct_read_only_database, stateless_http, stateful_mtls_tcp, jet_stream_async,
  AuthenticatedOperation,
}
use act_web_server_rs.Ports.{Ports}
use act_web_server_rs.Gateway.{GatewayError, backpressure, validate_authorization}
use act_web_server_rs.Gateway.Keeps.{Keeps}
use act_web_server_rs.Gateway.State.{Server}
use act_web_server_rs.Gateway.Envelope.{operation_envelope, bearer_operation, attested_operation}
use act_web_server_rs.Gateway.Http.{bounded_http_get}
use act_web_server_rs.Gateway.Mtls.{request}
use act_web_server_rs.Gateway.Mtls.Setup.{PersistentMtlsClient}
use act_web_server_rs.Gateway.Transport.Busy.{
  read_mode-NeverBusy, validate_authorization-ne-backpressure,
}
use act_web_server_rs.Gateway.Transport.{
  TransportGateway, read_mode, direct_read, http_read, tcp_read, jetstream_submit, read,
}

module _ (p : Ports) where
  abbrev KeepsPermits : {A : Type 0} → Action (Server p) GatewayError A → Type 0
  KeepsPermits = Keeps p (λ s. s.permits)

  operation_envelope-permits :
      (subject : String) (mode : WebApiMode) → KeepsPermits (operation_envelope p subject mode)
  unfolding operation_envelope
  operation_envelope-permits subject mode s = ground arith

  bearer_operation-permits :
      (subject authorization : String) (mode : WebApiMode)
      → KeepsPermits (bearer_operation p subject authorization mode)
  unfolding bearer_operation
  bearer_operation-permits subject authorization mode s = ground arith

  attested_operation-permits :
      (subject key : String) → KeepsPermits (attested_operation p subject key)
  unfolding attested_operation
  attested_operation-permits subject key s = ground arith

  bounded_http_get-permits :
      (http : Option p.HttpClient) (endpoint : p.Url) (authorization : String)
      → KeepsPermits (bounded_http_get p http endpoint authorization)
  unfolding bounded_http_get
  bounded_http_get-permits http endpoint authorization s = ground arith

  request-permits :
      (client : PersistentMtlsClient p) (operation : AuthenticatedOperation)
      → KeepsPermits (request p client operation)
  unfolding request
  request-permits client operation s = ground arith

  module _ (g : TransportGateway p) where
    direct_read-permits : (subject : String) → KeepsPermits (direct_read p g subject)
    unfolding direct_read
    direct_read-permits subject s = ground arith

    http_read-permits : (authorization : String) → KeepsPermits (http_read p g authorization)
    unfolding http_read bounded_http_get
    http_read-permits authorization s = ground arith

    tcp_read-permits :
        (subject authorization : String) → KeepsPermits (tcp_read p g subject authorization)
    unfolding tcp_read
    tcp_read-permits subject authorization s =
        grind (arith, request-permits, bearer_operation-permits)

    jetstream_submit-permits : (subject : String) → KeepsPermits (jetstream_submit p g subject)
    unfolding jetstream_submit
    jetstream_submit-permits subject s = grind (arith, attested_operation-permits)

    read_mode-permits :
        (mode : WebApiMode) (subject authorization : String)
        → KeepsPermits (read_mode p g mode subject authorization)
    unfolding read_mode
    read_mode-permits direct_read_only_database subject authorization = direct_read-permits subject
    read_mode-permits stateless_http subject authorization = http_read-permits authorization
    read_mode-permits stateful_mtls_tcp subject authorization =
        tcp_read-permits subject authorization
    read_mode-permits jet_stream_async subject authorization = jetstream_submit-permits subject

    -- A read gives its permit back on every path: as many are left after it as before.
    pub read-permits :
        (mode : WebApiMode) (subject authorization : String) (s : Server p)
        → (read p g mode subject authorization s).1.permits ≡ s.permits
    unfolding read
    read-permits mode subject authorization s = grind (arith, read_mode-permits)

    -- A read is refused with `Backpressure` exactly if its authorization is well formed and no permit
    -- is left.
    pub read-backpressure_iff :
        (mode : WebApiMode) (subject authorization : String) (s : Server p)
        → ((read p g mode subject authorization s).0 ≡ err backpressure) ↔ (
            (validate_authorization p.max_authorization_bytes authorization ≡ ok tt)
            × (s.permits ≡ 0))
    unfolding read
    read-backpressure_iff mode subject authorization s = ground (
      arith,
      validate_authorization-ne-backpressure p p.max_authorization_bytes authorization,
      read_mode-NeverBusy p g mode subject authorization (record s { permits = s.permits - 1 }),
    )
