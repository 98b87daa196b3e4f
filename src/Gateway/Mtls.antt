-- ===== src/Gateway/Mtls.antt =====
-- src/data_plane.rs: `PersistentMtlsClient`. The connection's mutex is held for a whole request, so
-- requests follow one another, and a request is one function of the state.
pub mod Setup
pub mod Laws
use act_web_server_rs.Common.{
  ℕ, String, Bool, true, false, Option, none, some, List, [], ◌∷◌, Result, ok, err, ok_or, ltb,
  fail_if, AnyError, bail, library, length, Bytes,
}
use act_web_server_rs.Common.Effect.{Action, pure, lift, ◌>>=◌, ◌>>◌}
use act_web_server_rs.Common.Outcome
use act_web_server_rs.Gateway.Mtls.Setup.{PersistentMtlsClient}
use act_web_server_rs.Operation.{AuthenticatedOperation, OperationReply}
use act_web_server_rs.Ports.{Ports, CodecPolicy, Received, closed, broken, frame}
use act_web_server_rs.Gateway.{GatewayError, timeout, upstream, invalid_request, invalid_response}
use act_web_server_rs.Gateway.State.{Server, timed, on_world}

module _ (p : Ports) where
  -- `length_codec`
  unfoldable pub length_codec : CodecPolicy
  length_codec = record { length_field_length = 4; max_frame_length = p.max_transport_bytes }

  -- `connect`
  unfoldable pub connect : PersistentMtlsClient p → Action (Server p) GatewayError p.Connection
  unfolding length_codec
  connect client = do
    tcp ← on_world p timed (p.tcp_connect client.address)
    server_name ← lift (ok_or (p.server_name_of client.server_name) invalid_request)
    tls ← on_world p timed (p.tls_connect client.connector server_name tcp)
    pure (p.framed tls length_codec)

  -- the outcome of waiting for a frame
  abbrev pub received : Received → Result GatewayError Bytes
  received Received.elapsed = err timeout
  received closed = err upstream
  received broken = err invalid_response
  received (frame bytes) = ok bytes

  -- `guard.take()`: the slot is emptied.
  unfoldable pub take_connection : Action (Server p) GatewayError (Option p.Connection)
  take_connection s = (ok s.connection, record s { connection = none })

  -- the kept connection, or a new one
  unfoldable pub connection_or_connect :
      PersistentMtlsClient p → Option p.Connection → Action (Server p) GatewayError p.Connection
  unfolding connect
  connection_or_connect client none = connect client
  connection_or_connect client (some c) = pure c

  -- the block whose result is `outcome`
  unfoldable pub exchange :
      p.Connection → Bytes → Action (Server p) GatewayError (OperationReply p.Failure)
  exchange c payload = do
    on_world p timed (p.send c payload)
    bytes ← on_world p received (p.next c)
    lift (ok_or (p.decode_reply bytes) invalid_response)

  -- `if outcome.is_ok() { *guard = Some(connection); } outcome`
  abbrev keep :
      {A : Type 0}
      → p.Connection
      → Result GatewayError A × Server p
      → Result GatewayError A × Server p
  keep c (ok a, s) = (ok a, record s { connection = some c })
  keep c (err e, s) = (err e, s)

  unfoldable pub exchange_and_keep :
      p.Connection → Bytes → Action (Server p) GatewayError (OperationReply p.Failure)
  unfolding exchange
  exchange_and_keep c payload s = keep c (exchange c payload s)

  -- `request`
  unfoldable pub request :
      PersistentMtlsClient p
      → AuthenticatedOperation
      → Action (Server p) GatewayError (OperationReply p.Failure)
  unfolding take_connection connection_or_connect exchange_and_keep
  request client operation = do
    payload ← lift (ok_or (p.encode operation) invalid_request)
    lift (fail_if (ltb p.max_transport_bytes (length payload)) invalid_request)
    kept ← take_connection
    c ← connection_or_connect client kept
    exchange_and_keep c payload
