-- ===== src/Gateway/Envelope.antt =====
-- src/data_plane.rs: operation ids, envelopes and the two kinds of authenticated operation.
pub mod Ids
pub mod Issue
pub mod Laws
use act_web_server_rs.Common.{
  ℕ, ◌+◌, ◌%◌, ◌^◌, String, Bool, true, false, Option, none, some, Result, ok, err, ok_or, ltb,
  fail_if, not, if◌then◌else◌,
}
use act_web_server_rs.Common.Outcome as Result
use act_web_server_rs.Common.Decimal.{to_string}
use act_web_server_rs.Common.Effect.{Action, pure, lift, ◌>>=◌, ◌>>◌}
use act_web_server_rs.Common.Json.{object, end}
use act_web_server_rs.Operation.{
  WebApiMode, direct_read_only_database, stateless_http, stateful_mtls_tcp, jet_stream_async, read,
  OperationEnvelope, AuthenticatedOperation,
}
use act_web_server_rs.Ports.{Ports}
use act_web_server_rs.Gateway.{
  GatewayError, invalid_request, validate_authorization, validate_identifier,
}
use act_web_server_rs.Gateway.State.{Server, on_world}
use Prim.Native.String.{◌++◌}

-- `mode == WebApiMode::JetStreamAsync`
abbrev pub is_jet_stream : WebApiMode → Bool
is_jet_stream jet_stream_async = true
is_jet_stream direct_read_only_database = false
is_jet_stream stateless_http = false
is_jet_stream stateful_mtls_tcp = false

abbrev pub u64 : ℕ
u64 = 2 ^ 64

-- `format!("web-{now}-{sequence}")`
unfoldable pub operation_id_of : ℕ → ℕ → String
operation_id_of now sequence = "web-" ++ (to_string now ++ ("-" ++ to_string sequence))

-- `now_unix_ms`, on what the clock says: `none` stands for a time before the epoch.
unfoldable pub unix_ms : Option ℕ → Result GatewayError ℕ
unix_ms none = err invalid_request
unix_ms (some millis) = if ltb millis u64 then ok millis else err invalid_request

-- The envelope that `operation_envelope` returns. The deadline wraps as `u64`.
unfoldable pub envelope_of : String → WebApiMode → ℕ → ℕ → OperationEnvelope
unfolding operation_id_of
envelope_of subject mode now sequence = record {
  version = 1;
  operation_id = operation_id_of now sequence;
  subject = subject;
  resource = "youtube_status";
  operation = read;
  payload = object end;
  deadline_unix_ms = (now + 10_000) % u64;
  dedupe_key = if is_jet_stream mode then some (operation_id_of now sequence) else none;
}

module _ (p : Ports) where
  -- `now_unix_ms`
  unfoldable pub now_unix_ms : Action (Server p) GatewayError ℕ
  unfolding unix_ms
  now_unix_ms s = let (r, w) = p.clock s.world in (unix_ms r, record s { world = w })

  -- `OPERATION_SEQUENCE.fetch_add(1, Ordering::Relaxed)`
  unfoldable pub fetch_sequence : Action (Server p) GatewayError ℕ
  fetch_sequence s = (ok s.sequence, record s { sequence = (s.sequence + 1) % u64 })

  -- `operation_envelope`
  unfoldable pub operation_envelope :
      String → WebApiMode → Action (Server p) GatewayError OperationEnvelope
  unfolding now_unix_ms fetch_sequence envelope_of
  operation_envelope subject mode = do
    lift (validate_identifier subject 256)
    now ← now_unix_ms
    sequence ← fetch_sequence
    pure (envelope_of subject mode now sequence)

  -- `request.validate(mode).map_err(…)`
  unfoldable pub validated :
      AuthenticatedOperation → WebApiMode → Result GatewayError AuthenticatedOperation
  validated request mode = if p.validate request mode then ok request else err invalid_request

  -- `bearer_operation`
  unfoldable pub bearer_operation :
      String → String → WebApiMode → Action (Server p) GatewayError AuthenticatedOperation
  unfolding operation_envelope validated
  bearer_operation subject authorization mode = do
    lift (validate_authorization p.max_authorization_bytes authorization)
    lift (fail_if (is_jet_stream mode) invalid_request)
    envelope ← operation_envelope subject mode
    lift (validated (record { authorization = authorization; envelope = envelope }) mode)

  -- `attested_operation`
  unfoldable pub attested_operation :
      String → String → Action (Server p) GatewayError AuthenticatedOperation
  unfolding operation_envelope validated
  attested_operation subject key = do
    envelope ← operation_envelope subject jet_stream_async
    authorization ← lift (ok_or (p.sign_operation_attestation key envelope) invalid_request)
    lift
        (validated (record { authorization = authorization; envelope = envelope }) jet_stream_async)
