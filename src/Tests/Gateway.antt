-- ===== src/Tests/Gateway.antt =====
-- The gateway's reads and its semaphore at concrete requests.
use act_web_server_rs.Common.{◌≡◌, ◌≢◌, ◌↔◌, inr, refl, ok, err, [], ◌∷◌, arith}
use act_web_server_rs.Common.Decimal.{to_string, digits, digit}
use act_web_server_rs.Common.Text.{
  is_empty, trim, trim_start, trim_end, trim_last, is_whitespace, any_char, is_control,
  strip_prefix,
}
use act_web_server_rs.Operation.{stateless_http, stateful_mtls_tcp, jet_stream_async}
use act_web_server_rs.Gateway.{
  projection, accepted, validate_authorization, validate_identifier, backpressure,
}
use act_web_server_rs.Gateway.Envelope.{
  bearer_operation, attested_operation, operation_envelope, envelope_of, operation_id_of,
  now_unix_ms, unix_ms, fetch_sequence, validated,
}
use act_web_server_rs.Gateway.Mtls.{
  request, connect, connection_or_connect, exchange, exchange_and_keep, take_connection,
  length_codec,
}
use act_web_server_rs.Gateway.Transport.{read, tcp_read, reply_of, jetstream_submit, dedupe_headers}
use act_web_server_rs.Gateway.Transport.Laws.{read_ignores_bearer}
use act_web_server_rs.Gateway.Transport.Unauthorized.{read-unauthorized_iff}
use act_web_server_rs.Gateway.{unauthorized}
use act_web_server_rs.Gateway.Transport.Replied.{IsReplied, tcp_read_iff}
use act_web_server_rs.Gateway.Transport.Complete.{
  signed_operation, IsSubmitted, jetstream_submit_iff,
}
use act_web_server_rs.Gateway.Transport.Submission.{IsPublished}
use act_web_server_rs.Gateway.Transport.Permits.{read-backpressure_iff}
use act_web_server_rs.Tests.Bearer.{well_formed}
use act_web_server_rs.Tests.Fixture.{ports, status_body, epoch}
use act_web_server_rs.Tests.State.{gateway, tcp_gateway, server, busy_server, key}

ill_formed : validate_authorization 4096 "bearer token" ≢ ok tt
unfolding validate_authorization strip_prefix
ill_formed e = cc

also_well_formed : validate_authorization 4096 "Bearer other" ≡ ok tt
unfolding validate_authorization strip_prefix is_empty trim trim_start trim_end trim_last
    is_whitespace any_char
also_well_formed = refl

read_ignores_bearer_example :
    read ports gateway jet_stream_async "actor-1" "Bearer token" server
    ≡ read ports gateway jet_stream_async "actor-1" "Bearer other" server
read_ignores_bearer_example =
    read_ignores_bearer ports gateway jet_stream_async "actor-1" "Bearer token" "Bearer other"
      server (inr refl) well_formed also_well_formed

tcp_answer :
    (tcp_read ports tcp_gateway "actor-1" "Bearer token" server).0
    ≡ ok (projection stateful_mtls_tcp status_body)
unfolding tcp_read bearer_operation operation_envelope envelope_of operation_id_of now_unix_ms
    unix_ms fetch_sequence validated reply_of request connect connection_or_connect exchange
    exchange_and_keep take_connection length_codec validate_authorization validate_identifier
    strip_prefix is_empty trim trim_start trim_end trim_last is_whitespace any_char is_control
    to_string digits digit
tcp_answer = refl

tcp_read_iff_example :
    ((tcp_read ports tcp_gateway "actor-1" "Bearer token" server).0
      ≡ ok (projection stateful_mtls_tcp status_body))
    ↔ IsReplied ports tcp_gateway "actor-1" "Bearer token" server
        (projection stateful_mtls_tcp status_body)
tcp_read_iff_example =
    tcp_read_iff ports tcp_gateway "actor-1" "Bearer token" server
      (projection stateful_mtls_tcp status_body)

IsReplied-first :
    IsReplied ports tcp_gateway "actor-1" "Bearer token" server
      (projection stateful_mtls_tcp status_body)
IsReplied-first =
    (tcp_read_iff ports tcp_gateway "actor-1" "Bearer token" server
        (projection stateful_mtls_tcp status_body)).0
      tcp_answer

submitted :
    (jetstream_submit ports gateway "actor-1" server).0
    ≡ ok (accepted "web-1700000000123-1" "accepted")
unfolding jetstream_submit attested_operation operation_envelope envelope_of operation_id_of
    now_unix_ms unix_ms fetch_sequence validated dedupe_headers validate_identifier is_empty trim
    trim_start trim_end trim_last is_whitespace any_char is_control to_string digits digit
submitted = refl

read-backpressure_iff_example :
    ((read ports gateway stateless_http "actor-1" "Bearer token" busy_server).0 ≡ err backpressure)
    ↔ ((validate_authorization 4096 "Bearer token" ≡ ok tt) × (busy_server.permits ≡ 0))
read-backpressure_iff_example =
    read-backpressure_iff ports gateway stateless_http "actor-1" "Bearer token" busy_server

pub valid_actor : validate_identifier "actor-1" 256 ≡ ok tt
unfolding validate_identifier is_empty trim trim_start trim_end trim_last is_whitespace any_char
    is_control
valid_actor = refl

published :
    IsPublished ports gateway
      (signed_operation ports key "actor-1" epoch 1)
      (attested_operation ports "actor-1" key server).1.world
published = record {
  context = "tls://nats.example";
  payload = 7 ∷ [];
  ack = "act.request";
  connected = refl;
  encoded = refl;
  fits = omega arith;
  sent = refl;
  acknowledged = refl;
}

IsSubmitted-first :
    IsSubmitted ports gateway "actor-1" server (accepted "web-1700000000123-1" "accepted")
unfolding operation_id_of to_string digits digit
IsSubmitted-first = record {
  key = key;
  signature = key;
  now = epoch;
  named = valid_actor;
  clock = refl;
  small = omega arith;
  given = refl;
  signed = refl;
  valid = refl;
  published = published;
  reply = refl;
}

jetstream_submit_iff_example :
    ((jetstream_submit ports gateway "actor-1" server).0
      ≡ ok (accepted "web-1700000000123-1" "accepted"))
    ↔ IsSubmitted ports gateway "actor-1" server (accepted "web-1700000000123-1" "accepted")
jetstream_submit_iff_example =
    jetstream_submit_iff ports gateway "actor-1" server (accepted "web-1700000000123-1" "accepted")

read-unauthorized_iff_example :
    (((read ports gateway stateless_http "actor-1" "Basic token" server).0 ≡ err unauthorized)
      ↔ (validate_authorization 4096 "Basic token" ≢ ok tt))
    × (((read ports gateway stateless_http "actor-1" "Basic token" server).0 ≡ err unauthorized) ↔ (
        read ports gateway stateless_http "actor-1" "Basic token" server
        ≡ (err unauthorized, server)))
read-unauthorized_iff_example =
    read-unauthorized_iff ports gateway stateless_http "actor-1" "Basic token" server
