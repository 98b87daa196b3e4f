-- ===== src/Gateway/Transport/Busy.antt =====
-- src/data_plane.rs: where the error `Backpressure` comes from.
use act_web_server_rs.Common.{ℕ, ◌≢◌, String, err, arith, Option-cases, inl, inr}
use act_web_server_rs.Common.Effect.{Action}
use act_web_server_rs.Operation.{
  WebApiMode, direct_read_only_database, stateless_http, stateful_mtls_tcp, jet_stream_async,
}
use act_web_server_rs.Ports.{Ports}
use act_web_server_rs.Gateway.{GatewayError, backpressure, validate_authorization}
use act_web_server_rs.Gateway.Errors.{
  IsForeign, Never, validate_authorization-never, request-Never, bearer_operation-Never,
  attested_operation-Never, bounded_http_get-Never,
}
use act_web_server_rs.Gateway.State.{Server}
use act_web_server_rs.Gateway.Http.{bounded_http_get, api_endpoint}
use act_web_server_rs.Gateway.Transport.{
  TransportGateway, read_mode, direct_read, http_read, tcp_read, jetstream_submit,
}

backpressure-IsForeign : IsForeign backpressure
backpressure-IsForeign = record {
  not_unauthorized = λ e. cc;
  not_invalid_request = λ e. cc;
  not_timeout = λ e. cc;
  not_upstream = λ e. cc;
  not_invalid_response = λ e. cc;
}

module _ (p : Ports) where
  abbrev pub NeverBusy : {A : Type 0} → Action (Server p) GatewayError A → Type 0
  NeverBusy = Never p backpressure

  pub validate_authorization-ne-backpressure :
      (max : ℕ) (value : String) → validate_authorization max value ≢ err backpressure
  validate_authorization-ne-backpressure =
      validate_authorization-never p backpressure backpressure-IsForeign

  module _ (g : TransportGateway p) where
    direct_read-NeverBusy : (subject : String) → NeverBusy (direct_read p g subject)
    unfolding direct_read
    direct_read-NeverBusy subject s e = ground arith

    http_read-NeverBusy : (authorization : String) → NeverBusy (http_read p g authorization)
    unfolding http_read api_endpoint bounded_http_get
    http_read-NeverBusy authorization s e = elim (Option-cases g.http) [
      | inl absent ↦ ground arith
      | inr (client, present) ↦
          grind (arith, bounded_http_get-Never p backpressure backpressure-IsForeign)
    ]

    tcp_read-NeverBusy :
        (subject authorization : String) → NeverBusy (tcp_read p g subject authorization)
    unfolding tcp_read
    tcp_read-NeverBusy subject authorization s e = grind (
      arith,
      request-Never p backpressure backpressure-IsForeign,
      bearer_operation-Never p backpressure backpressure-IsForeign,
    )

    jetstream_submit-NeverBusy : (subject : String) → NeverBusy (jetstream_submit p g subject)
    unfolding jetstream_submit
    jetstream_submit-NeverBusy subject s e =
        grind (arith, attested_operation-Never p backpressure backpressure-IsForeign)

    pub read_mode-NeverBusy :
        (mode : WebApiMode) (subject authorization : String)
        → NeverBusy (read_mode p g mode subject authorization)
    unfolding read_mode
    read_mode-NeverBusy direct_read_only_database subject authorization =
        direct_read-NeverBusy subject
    read_mode-NeverBusy stateless_http subject authorization = http_read-NeverBusy authorization
    read_mode-NeverBusy stateful_mtls_tcp subject authorization =
        tcp_read-NeverBusy subject authorization
    read_mode-NeverBusy jet_stream_async subject authorization = jetstream_submit-NeverBusy subject
