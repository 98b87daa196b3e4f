-- ===== src/Gateway/Overlap.antt =====
-- src/data_plane.rs: `read` in its steps, for requests that run at the same time. A future gives way
-- only where it awaits, and another thread may run between any two of its accesses to what is shared:
-- the semaphore, the sequence, the client's mutex with its slot, and the world. The modes without the
-- mutex work in one step.
pub mod System
pub mod Invariant
pub mod Ids
pub mod Apart
pub mod Distinct
pub mod Safety
pub mod Progress
use act_web_server_rs.Common.{
  ℕ, ◌+◌, String, Bool, true, false, Option, none, some, List, [], ◌∷◌, ◌++◌, Result, ok, err,
  ok_or, fail_if, ltb, length, Bytes, if◌then◌else◌,
}
use act_web_server_rs.Common.Outcome
use act_web_server_rs.Common.Effect.{Action, pure, lift, ◌>>=◌, ◌>>◌}
use act_web_server_rs.Operation.{
  WebApiMode, direct_read_only_database, stateless_http, stateful_mtls_tcp, jet_stream_async,
  OperationReply, AuthenticatedOperation,
}
use act_web_server_rs.Ports.{Ports}
use act_web_server_rs.Gateway.{
  GatewayReply, GatewayError, not_configured, invalid_request, invalid_response,
  validate_authorization,
}
use act_web_server_rs.Gateway.State.{Server, timed, on_world}
use act_web_server_rs.Gateway.Envelope.{bearer_operation}
use act_web_server_rs.Gateway.Link.{Link, linked, sent, after_wait}
use act_web_server_rs.Gateway.Mtls.{length_codec, received, take_connection}
use act_web_server_rs.Gateway.Mtls.Setup.{PersistentMtlsClient}
use act_web_server_rs.Gateway.Transport.{
  TransportGateway, try_acquire, release, reply_of, direct_read, http_read, jetstream_submit,
}

-- the server with the mutex round its slot
pub record Shared (p : Ports) : Type 0 where
  pub server : Server (linked p)
  pub locked : Bool

-- what `request` works on
pub record Request (p : Ports) : Type 0 where
  pub client : PersistentMtlsClient (linked p)
  pub operation : AuthenticatedOperation
  pub payload : Bytes

abbrev pub expected_id : {p : Ports} → Request p → String
expected_id r = r.operation.envelope.operation_id

-- Where a call of `read` stands. From `admitted` to `holding` it has a permit; from `dialing` to
-- `receiving` it has the mutex, and in the last two a connection.
pub data Phase (p : Ports) : Type 0 where
  called : WebApiMode → String → String → Phase p
  admitted : WebApiMode → String → String → Phase p
  waiting : Request p → Phase p
  dialing : Request p → Phase p
  shaking : Request p → p.ServerName → p.Tcp → Phase p
  sending : Request p → Link p → Phase p
  receiving : Request p → Link p → Phase p
  holding : Result GatewayError GatewayReply → Phase p
  returned : Result GatewayError GatewayReply → Phase p

abbrev pub permits_held : {p : Ports} → Phase p → ℕ
permits_held (called mode subject authorization) = 0
permits_held (returned r) = 0
permits_held (admitted mode subject authorization) = 1
permits_held (waiting r) = 1
permits_held (dialing r) = 1
permits_held (shaking r name tcp) = 1
permits_held (sending r c) = 1
permits_held (receiving r c) = 1
permits_held (holding r) = 1

abbrev pub holds_mutex : {p : Ports} → Phase p → Bool
holds_mutex (dialing r) = true
holds_mutex (shaking r name tcp) = true
holds_mutex (sending r c) = true
holds_mutex (receiving r c) = true
holds_mutex _ = false

module _ (p : Ports) where
  abbrev pub onward :
      {A : Type 0}
      → (A → Phase p)
      → (GatewayError → Phase p)
      → Shared p
      → Result GatewayError A × Server (linked p)
      → Phase p × Shared p
  onward next fail s (ok a, t) = (next a, record s { server = t })
  onward next fail s (err e, t) = (fail e, record s { server = t })

  -- With the mutex: a future that leaves `request` by `?` drops the guard.
  abbrev pub or_unlock :
      {A : Type 0}
      → (A → Phase p)
      → Shared p
      → Result GatewayError A × Server (linked p)
      → Phase p × Shared p
  or_unlock next s (ok a, t) = (next a, record s { server = t })
  or_unlock next s (err e, t) = (holding (err e), record s { server = t; locked = false })

  -- `if outcome.is_ok() { *guard = Some(connection); }`, and the guard is dropped.
  unfoldable pub settle :
      Link p
      → (OperationReply p.Failure → Result GatewayError GatewayReply)
      → Shared p
      → Result GatewayError (OperationReply p.Failure) × Server (linked p)
      → Phase p × Shared p
  settle c read_reply s (ok reply, t) = (
    holding (read_reply reply),
    record s { server = record t { connection = some c }; locked = false },
  )
  settle c read_reply s (err e, t) = (holding (err e), record s { server = t; locked = false })

  -- `let mut guard = self.connection.lock().await; match guard.take()`
  unfoldable pub lock_and_take : Request p → Shared p → Phase p × Shared p
  unfolding take_connection
  lock_and_take r s = elim s.locked [
    | true ↦ (waiting r, s)
    | false ↦ (
      elim s.server.connection [ none ↦ dialing r | some c ↦ sending r c ],
      record s { server = (take_connection (linked p) s.server).1; locked = true },
    )
  ]

  -- What a call gives back when its future is dropped where it stands: the guard, with which a taken
  -- connection goes, and the permit.
  unfoldable pub dropped : Phase p → Shared p → Shared p
  dropped phase s = record s {
    server = record s.server { permits = s.server.permits + permits_held phase };
    locked = if holds_mutex phase then false else s.locked;
  }

  module _ (g : TransportGateway (linked p)) where
    -- what `tcp_read` and `request` do before the mutex
    unfoldable pub prepare : String → String → Action (Server (linked p)) GatewayError (Request p)
    prepare subject authorization = do
      client ← lift (ok_or g.tcp not_configured)
      operation ← bearer_operation (linked p) subject authorization stateful_mtls_tcp
      payload ← lift (ok_or (p.encode operation) invalid_request)
      lift (fail_if (ltb p.max_transport_bytes (length payload)) invalid_request)
      pure (record { client = client; operation = operation; payload = payload })

    -- the permit's mode begins
    unfoldable pub begin_mode : WebApiMode → String → String → Shared p → Phase p × Shared p
    unfolding prepare direct_read http_read
    begin_mode direct_read_only_database subject authorization s =
        onward (λ r. holding (ok r)) (λ e. holding (err e)) s
          (direct_read (linked p) g subject s.server)
    begin_mode stateless_http subject authorization s =
        onward (λ r. holding (ok r)) (λ e. holding (err e)) s
          (http_read (linked p) g authorization s.server)
    begin_mode stateful_mtls_tcp subject authorization s =
        onward waiting (λ e. holding (err e)) s (prepare subject authorization s.server)
    begin_mode jet_stream_async subject authorization s =
        onward (λ r. holding (ok r)) (λ e. holding (err e)) s
          (jetstream_submit (linked p) g subject s.server)

    -- One step of a call. A call that waits for a locked mutex stays where it is.
    unfoldable pub advance : Phase p → Shared p → Phase p × Shared p
    unfolding try_acquire lock_and_take begin_mode settle reply_of length_codec
    advance (called mode subject authorization) s =
        onward (λ _. admitted mode subject authorization) (λ e. returned (err e)) s
          ((do
            lift (validate_authorization p.max_authorization_bytes authorization)
            try_acquire (linked p))
            s.server)
    advance (admitted mode subject authorization) s = begin_mode mode subject authorization s
    advance (waiting r) s = lock_and_take r s
    advance (dialing r) s =
        or_unlock (λ (name, tcp). shaking r name tcp) s
          ((do
            tcp ← on_world (linked p) timed (p.tcp_connect r.client.address)
            name ← lift (ok_or (p.server_name_of r.client.server_name) invalid_request)
            pure (name, tcp))
            s.server)
    advance (shaking r name tcp) s =
        or_unlock (λ tls. sending r ((linked p).framed tls (length_codec p))) s
          (on_world (linked p) timed (p.tls_connect r.client.connector name tcp) s.server)
    advance (sending r c) s =
        or_unlock (λ _. receiving r (sent (expected_id r) c)) s
          (on_world (linked p) timed ((linked p).send c r.payload) s.server)
    advance (receiving r c) s =
        let (waited, t) = on_world (linked p) (received p) ((linked p).next c) s.server in
        settle (after_wait waited c) (reply_of (linked p) g (expected_id r)) s
          ((do bytes ← lift waited; lift (ok_or (p.decode_reply bytes) invalid_response)) t)
    advance (holding r) s = (returned r, record s { server = (release (linked p) (r, s.server)).1 })
    advance (returned r) s = (returned r, s)
