-- ===== src/Gateway/Transport.antt =====
-- src/data_plane.rs: `TransportGateway`, its four modes and the status of an operation.
pub mod Foreign
pub mod Laws
pub mod Submission
pub mod Sequence
pub mod Unique
pub mod Provenance
pub mod Status
pub mod Replied
pub mod Permits
pub mod Busy
pub mod Unauthorized
pub mod Configured
pub mod Complete
pub mod Admission
use act_web_server_rs.Common.{
  ℕ, zero, suc, ◌+◌, String, Bool, true, false, Option, none, some, List, [], ◌∷◌, Result, ok, err,
  ok_or, fail_if, traverse, AnyError, library, ltb, length, not, is_some, ◌==◌,
}
use act_web_server_rs.Common.Outcome
use act_web_server_rs.Common.Effect.{Action, pure, lift, ◌>>=◌, ◌>>◌}
use act_web_server_rs.Common.Json.{Value}
use act_web_server_rs.Operation.{
  WebApiMode, direct_read_only_database, stateless_http, stateful_mtls_tcp, jet_stream_async,
  OperationReply, AuthenticatedOperation,
}
use act_web_server_rs.Ports.{Ports}
use act_web_server_rs.Db.{DirectReadStore, EventProjection, events_for_subject, value_of_events}
use act_web_server_rs.Gateway.{
  GatewayReply, projection, accepted, GatewayError, not_configured, backpressure, upstream,
  invalid_request, invalid_response, validate_authorization, validate_identifier,
}
use act_web_server_rs.Gateway.State.{Server, timed, on_world}
use act_web_server_rs.Gateway.Envelope.{bearer_operation, attested_operation}
use act_web_server_rs.Gateway.Mtls.{request}
use act_web_server_rs.Gateway.Mtls.Setup.{PersistentMtlsClient}
use act_web_server_rs.Gateway.Http.{bounded_http_get, api_endpoint}
use Prim.Native.String.{◌++◌}

pub record TransportGateway (p : Ports) : Type 0 where
  pub direct : Option (DirectReadStore p)
  pub http : Option p.HttpClient
  pub api_url : Option p.Url
  pub tcp : Option (PersistentMtlsClient p)
  pub jetstream : Option p.JetStream
  pub operation_attestation_key : Option String

abbrev pub max_in_flight_operations : ℕ
max_in_flight_operations = 64

-- `.map_err(|_| GatewayError::Upstream)`
abbrev pub or_upstream : {A : Type 0} → Result AnyError A → Result GatewayError A
or_upstream (ok a) = ok a
or_upstream (err _) = err upstream

-- `reply.operation_id.as_deref() != Some(expected_id.as_str())`
abbrev pub is_id : Option String → String → Bool
is_id none expected = false
is_id (some id) expected = id == expected

module _ (p : Ports) where
  -- the client that `new` builds for an API URL
  unfoldable pub client_for : p.Url → Result AnyError p.HttpClient
  client_for url =
      ok_or
        (p.build_client (record {
          connect_timeout = 2_000;
          timeout = 4_000;
          follow_redirects = false;
          https_only = not (p.scheme url == "http");
        }))
        library

  -- `new`
  unfoldable pub new :
      Option (DirectReadStore p)
      → Option p.Url
      → Option (PersistentMtlsClient p)
      → Option p.JetStream
      → Option String
      → Result AnyError (TransportGateway p)
  unfolding client_for
  new direct api_url tcp jetstream operation_attestation_key =
      Outcome.◌>>=◌ (traverse client_for api_url) λ http. ok (record {
        direct = direct;
        http = http;
        api_url = api_url;
        tcp = tcp;
        jetstream = jetstream;
        operation_attestation_key = operation_attestation_key;
      })

  -- `permits.try_acquire_owned()`
  unfoldable pub try_acquire : Action (Server p) GatewayError (Unit {0})
  try_acquire s = elim s.permits [
    | zero ↦ (err backpressure, s)
    | suc n ↦ (ok tt, record s { permits = n })
  ]

  -- The permit is dropped when the block ends, on each of its paths.
  abbrev pub release : {A : Type 0} → A × Server p → A × Server p
  release (r, s) = (r, record s { permits = s.permits + 1 })

  abbrev pub holding_permit :
      {A : Type 0} → Action (Server p) GatewayError A → Action (Server p) GatewayError A
  holding_permit body s = release (body s)

  module _ (g : TransportGateway p) where
    -- `direct_read`
    unfoldable pub direct_read : String → Action (Server p) GatewayError GatewayReply
    direct_read subject = do
      store ← lift (ok_or g.direct not_configured)
      events ← on_world p or_upstream (events_for_subject p store subject)
      pure (projection direct_read_only_database (value_of_events events))

    -- `http_read`
    unfoldable pub http_read : String → Action (Server p) GatewayError GatewayReply
    http_read authorization = do
      endpoint ← lift (api_endpoint p g.api_url "v1/youtube/status")
      content ← bounded_http_get p g.http endpoint authorization
      pure (projection stateless_http content)

    -- what `tcp_read` does with the reply
    unfoldable pub reply_of : String → OperationReply p.Failure → Result GatewayError GatewayReply
    reply_of expected_id reply =
        Outcome.◌>>◌ (fail_if (not (is_id reply.operation_id expected_id)) invalid_response) (
          Outcome.◌>>◌ (fail_if (is_some reply.error) upstream) (
            Outcome.◌>>=◌ (ok_or reply.result invalid_response)
              λ content. ok (projection stateful_mtls_tcp content)))

    -- `tcp_read`
    unfoldable pub tcp_read : String → String → Action (Server p) GatewayError GatewayReply
    unfolding reply_of
    tcp_read subject authorization = do
      client ← lift (ok_or g.tcp not_configured)
      operation ← bearer_operation p subject authorization stateful_mtls_tcp
      reply ← request p client operation
      lift (reply_of operation.envelope.operation_id reply)

    -- the headers of a publish
    unfoldable pub dedupe_headers : String → List (String × String)
    dedupe_headers operation_id = ("Nats-Msg-Id", "act-operation:" ++ operation_id) ∷ []

    -- `jetstream_submit`
    unfoldable pub jetstream_submit : String → Action (Server p) GatewayError GatewayReply
    unfolding dedupe_headers
    jetstream_submit subject = do
      context ← lift (ok_or g.jetstream not_configured)
      key ← lift (ok_or g.operation_attestation_key not_configured)
      operation ← attested_operation p subject key
      payload ← lift (ok_or (p.encode operation) invalid_request)
      lift (fail_if (ltb p.max_transport_bytes (length payload)) invalid_request)
      acknowledgement ← on_world p timed (
          p.publish context p.request_subject (dedupe_headers operation.envelope.operation_id)
            payload)
      on_world p timed (p.acknowledged acknowledgement)
      pure (accepted operation.envelope.operation_id "accepted")

    -- the `match` of `read`
    unfoldable pub read_mode :
        WebApiMode → String → String → Action (Server p) GatewayError GatewayReply
    unfolding direct_read http_read tcp_read jetstream_submit
    read_mode direct_read_only_database subject authorization = direct_read subject
    read_mode stateless_http subject authorization = http_read authorization
    read_mode stateful_mtls_tcp subject authorization = tcp_read subject authorization
    read_mode jet_stream_async subject authorization = jetstream_submit subject

    -- `read`
    unfoldable pub read : WebApiMode → String → String → Action (Server p) GatewayError GatewayReply
    unfolding try_acquire
    read mode subject authorization = do
      lift (validate_authorization p.max_authorization_bytes authorization)
      try_acquire
      holding_permit (read_mode mode subject authorization)

    -- `status`
    unfoldable pub status : String → String → Action (Server p) GatewayError Value
    status operation_id authorization = do
      lift (validate_identifier operation_id 128)
      endpoint ← lift (api_endpoint p g.api_url ("v1/operations/" ++ operation_id))
      bounded_http_get p g.http endpoint authorization
