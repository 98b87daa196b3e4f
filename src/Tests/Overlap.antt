-- ===== src/Tests/Overlap.antt =====
-- Two overlapping calls of `read` in the small world.
use act_web_server_rs.Common.{
  arith, ◌+◌, ◌<◌, ℕ, zero, suc, ◌≤◌, ◌≡◌, ◌↔◌, refl, true, false, none, some, ◌⊎◌, err, List, [],
  ◌∷◌, ◌++◌, All,
}
use act_web_server_rs.Operation.{stateful_mtls_tcp}
use act_web_server_rs.Common.Decimal.{to_string, digits, digit}
use act_web_server_rs.Common.Text.{
  is_empty, trim, trim_start, trim_end, trim_last, is_whitespace, any_char, is_control,
  strip_prefix,
}
use act_web_server_rs.Gateway.{validate_authorization, validate_identifier, backpressure}
use act_web_server_rs.Gateway.Envelope.{
  bearer_operation, operation_envelope, envelope_of, operation_id_of, now_unix_ms, unix_ms,
  fetch_sequence, validated, u64,
}
use act_web_server_rs.Gateway.Mtls.{take_connection, length_codec}
use act_web_server_rs.Gateway.Transport.{TransportGateway, try_acquire, max_in_flight_operations}
use act_web_server_rs.Gateway.Link.{Link, linked}
use act_web_server_rs.Gateway.Overlap.{
  Phase, Request, called, receiving, advance, permits_held, holds_mutex,
}
use act_web_server_rs.Gateway.Overlap.System.{
  System, Reach, here, later, arrive, move, fresh, moved,
}
use act_web_server_rs.Gateway.Overlap.Invariant.{bit, total, unread_of}
use act_web_server_rs.Gateway.Overlap.Apart.{Apart}
use act_web_server_rs.Gateway.Overlap.Distinct.{arrivals, Reach-Apart}
use act_web_server_rs.Gateway.Overlap.Safety.{Reach-receiving, Reach-permits}
use act_web_server_rs.Gateway.Overlap.Progress.{Found, can_move, IsFinished, Reach-movable}
use act_web_server_rs.Gateway.Mtls.Setup.{PersistentMtlsClient}
use act_web_server_rs.Tests.Fixture.{ports}
use act_web_server_rs.Tests.State.{operation}

abbrev linked_client : PersistentMtlsClient (linked ports)
linked_client = record { address = "10.0.0.1:7443"; server_name = "api.example"; connector = "key" }

-- the gateway with its client in the small world whose connections carry what has been sent on them
abbrev linked_gateway : TransportGateway (linked ports)
linked_gateway = record {
  direct = none;
  http = none;
  api_url = none;
  tcp = some linked_client;
  jetstream = none;
  operation_attestation_key = none;
}

abbrev newcomer : Phase ports
newcomer = called stateful_mtls_tcp "actor-2" "Bearer other"

-- the call behind the newcomer
abbrev second : List (Phase ports) → Phase ports
second (a ∷ b ∷ []) = b
second calls = newcomer

-- a call that has made `n` steps, and another that has just come
abbrev after : ℕ → System ports
after zero = record (fresh ports 0) {
  calls = newcomer ∷ called stateful_mtls_tcp "actor-1" "Bearer token" ∷ [];
}
after (suc n) = moved ports linked_gateway (newcomer ∷ []) (second (after n).calls) [] (after n)

after-calls : (n : ℕ) → (after n).calls ≡ newcomer ∷ second (after n).calls ∷ []
after-calls zero = refl
after-calls (suc n) = refl

after-Reach : (n : ℕ) → Reach ports linked_gateway (fresh ports 0) (after n)
after-Reach zero =
    later (later here (arrive stateful_mtls_tcp "actor-1" "Bearer token" refl))
      (arrive stateful_mtls_tcp "actor-2" "Bearer other" refl)
after-Reach (suc n) =
    later (after-Reach n) (move (newcomer ∷ []) (second (after n).calls) [] (after-calls n) refl)

abbrev first_request : Request ports
first_request = record { client = linked_client; operation = operation; payload = 7 ∷ [] }

abbrev sent_on : Link ports
sent_on = record { connection = "10.0.0.1:7443"; unread = "web-1700000000123-1" ∷ [] }

receives : (after 6).calls ≡ (newcomer ∷ []) ++ receiving first_request sent_on ∷ []
unfolding advance bearer_operation operation_envelope envelope_of operation_id_of now_unix_ms
    unix_ms fetch_sequence validated validate_authorization validate_identifier strip_prefix
    is_empty trim trim_start trim_end trim_last is_whitespace any_char is_control to_string digits
    digit take_connection length_codec
receives = refl

Reach-receiving_example :
    (sent_on.unread ≡ operation.envelope.operation_id ∷ [])
    × ((after 6).shared.server.connection ≡ none)
    × ((after 6).shared.locked ≡ true)
    × All (λ (call : Phase ports). holds_mutex call ≡ false) (newcomer ∷ [])
Reach-receiving_example =
    Reach-receiving ports linked_gateway 0 (after 6) (newcomer ∷ []) [] first_request sent_on
      (after-Reach 6) receives

Reach-permits_example :
    (total permits_held (after 7).calls ≤ max_in_flight_operations)
    × (((try_acquire (linked ports) (after 7).shared.server).0 ≡ err backpressure)
        ↔ (total permits_held (after 7).calls ≡ max_in_flight_operations))
    × (unread_of (after 7).shared.server.connection ≡ [])
Reach-permits_example = Reach-permits ports linked_gateway 0 (after 7) (after-Reach 7)

Reach-movable_example :
    (total (λ (call : Phase ports). bit (holds_mutex call)) (after 6).calls
      ≡ bit (after 6).shared.locked)
    × (Found (can_move (after 6).shared.locked) (after 6).calls ⊎ IsFinished (after 6))
Reach-movable_example = Reach-movable ports linked_gateway 0 (after 6) (after-Reach 6)

few : 1 + arrivals ports linked_gateway (after-Reach 6) < u64
unfolding arrivals after-Reach
few = omega arith

Reach-Apart_example : Apart (after 6).calls
Reach-Apart_example = Reach-Apart ports linked_gateway 0 (after 6) (after-Reach 6) few
