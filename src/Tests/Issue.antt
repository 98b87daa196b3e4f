-- ===== src/Tests/Issue.antt =====
-- Envelopes that two requests make, at their ids.
use act_web_server_rs.Common.{◌≡◌, refl, ok}
use act_web_server_rs.Common.Decimal.{to_string, digits, digit}
use act_web_server_rs.Operation.{stateful_mtls_tcp, jet_stream_async}
use act_web_server_rs.Gateway.State.{Server}
use act_web_server_rs.Gateway.Envelope.{
  operation_envelope, envelope_of, operation_id_of, now_unix_ms, unix_ms, fetch_sequence,
}
use act_web_server_rs.Tests.Fixture.{ports, epoch}
use act_web_server_rs.Tests.Gateway.{valid_actor}
use act_web_server_rs.Tests.State.{server}

one_id : operation_id_of 5 7 ≡ "web-5-7"
unfolding operation_id_of to_string digits digit
one_id = refl

abbrev after_one : Server ports
after_one = record server { world = 1; sequence = 2 }

abbrev after_two : Server ports
after_two = record server { world = 2; sequence = 3 }

first_made :
    operation_envelope ports "actor-1" jet_stream_async server
    ≡ (ok (envelope_of "actor-1" jet_stream_async epoch 1), after_one)
unfolding operation_envelope now_unix_ms unix_ms fetch_sequence
first_made = rw valid_actor refl

second_made :
    operation_envelope ports "actor-1" stateful_mtls_tcp after_one
    ≡ (ok (envelope_of "actor-1" stateful_mtls_tcp epoch 2), after_two)
unfolding operation_envelope now_unix_ms unix_ms fetch_sequence
second_made = rw valid_actor refl
