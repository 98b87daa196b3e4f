-- ===== src/Tests/Transports.antt =====
-- The mTLS client, the HTTP reader and the database store at concrete inputs.
use act_web_server_rs.Common.{
  ◌↔◌, ◌≡◌, refl, ok, err, is_ok, is_some, none, true, false, [], ◌∷◌, arith,
}
use act_web_server_rs.Common.Json.{string}
use act_web_server_rs.Common.Text.{
  is_empty, trim, trim_start, trim_end, trim_last, is_whitespace, any_char, is_control, has_suffix,
}
use act_web_server_rs.Ports.{Ports, elapsed}
use act_web_server_rs.Db.{
  EventProjection, connect, connect_store, events_for_subject, is_invalid_subject, projections_of,
  projection_of,
}
use act_web_server_rs.Db.Complete.{events_for_subject_iff}
use act_web_server_rs.Db.Laws.{IsProved, connect_store_iff, events_for_subject_sound, IsRead}
use act_web_server_rs.Gateway.{timeout}
use act_web_server_rs.Gateway.Mtls.Setup.{PersistentMtlsClient}
use act_web_server_rs.Gateway.State.{Server}
use act_web_server_rs.Gateway.Mtls.{
  request, connection_or_connect, exchange, exchange_and_keep, take_connection,
}
use act_web_server_rs.Gateway.Mtls
use act_web_server_rs.Gateway.Mtls.Laws.{IsSendable, request-slot}
use act_web_server_rs.Gateway.Http.{read_response, collect, is_success, is_redirection}
use act_web_server_rs.Gateway.Http.Laws.{IsReadable, read_response_iff}
use act_web_server_rs.Tests.Fixture.{ports, status_body, response}
use act_web_server_rs.Tests.State.{server, client, operation, store, database_config}

-- a world in which no frame can be sent in time
abbrev silent : Ports
silent = record ports { send = λ connection bytes w. (elapsed, w) }

abbrev silent_client : PersistentMtlsClient silent
silent_client = record { address = "10.0.0.1:7443"; server_name = "api.example"; connector = "key" }

abbrev silent_server : Server silent
silent_server = record { world = 0; sequence = 1; connection = none; permits = 64 }

abbrev sendable : IsSendable ports operation
sendable = (7 ∷ [], refl, omega arith)

request-slot_example :
    is_some (request ports client operation server).1.connection
    ≡ is_ok (request ports client operation server).0
request-slot_example = request-slot ports client operation server sendable

unanswered : (request silent silent_client operation silent_server).0 ≡ err timeout
unfolding request Mtls.connect connection_or_connect exchange exchange_and_keep take_connection
unanswered = refl

answered : read_response ports response ≡ ok status_body
unfolding read_response collect is_success is_redirection
answered = refl

read_response_iff_example :
    (read_response ports response ≡ ok status_body) ↔ IsReadable ports response status_body
read_response_iff_example = read_response_iff ports response status_body

IsReadable-response : IsReadable ports response status_body
IsReadable-response = (read_response_iff ports response status_body).0 answered

connected : (connect_store ports database_config 0).0 ≡ ok store
unfolding connect_store connect has_suffix
connected = refl

connect_store_iff_example :
    ((connect_store ports database_config 0).0 ≡ ok store) ↔ IsProved ports database_config 0 store
connect_store_iff_example = connect_store_iff ports database_config 0 store

IsProved-store : IsProved ports database_config 0 store
IsProved-store = (connect_store_iff ports database_config 0 store).0 connected

abbrev event : EventProjection
event = record { id = "1"; payload = string "{}"; created_at = "2026-01-01" }

events : (events_for_subject ports store "actor-1" 0).0 ≡ ok (event ∷ [])
unfolding events_for_subject is_invalid_subject projections_of projection_of is_empty trim
    trim_start trim_end trim_last is_whitespace any_char is_control has_suffix
events = refl

IsRead-events : IsRead ports store "actor-1" 0 (event ∷ [])
IsRead-events = (events_for_subject_sound ports store "actor-1" 0 (event ∷ []) events).2

usual_actor : is_invalid_subject "actor-1" ≡ false
unfolding is_invalid_subject is_empty trim trim_start trim_end trim_last is_whitespace any_char
    is_control
usual_actor = refl

reviewed_role : has_suffix "_web_ro" store.expected_role ≡ true
unfolding has_suffix
reviewed_role = refl

events_for_subject_iff_example :
    ((events_for_subject ports store "actor-1" 0).0 ≡ ok (event ∷ [])) ↔ (
      (is_invalid_subject "actor-1" ≡ false)
      × (has_suffix "_web_ro" store.expected_role ≡ true)
      × IsRead ports store "actor-1" 0 (event ∷ []))
events_for_subject_iff_example = events_for_subject_iff ports store "actor-1" 0 (event ∷ [])

read_again : (events_for_subject ports store "actor-1" 0).0 ≡ ok (event ∷ [])
read_again =
    (events_for_subject_iff ports store "actor-1" 0 (event ∷ [])).1
      (usual_actor, reviewed_role, IsRead-events)
