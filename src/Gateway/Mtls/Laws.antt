-- ===== src/Gateway/Mtls/Laws.antt =====
-- The connection slot over a request.
use act_web_server_rs.Common.{
  ◌∙◌, ◌≤◌, ◌<◌, ◌≡◌, refl, Option, none, some, ok, err, arith, length, Bytes, is_ok, is_some,
  Result, Option-cases, inl, inr,
}
use act_web_server_rs.Common.Effect.{after, ◌>>=◌}
use act_web_server_rs.Operation.{AuthenticatedOperation}
use act_web_server_rs.Ports.{Ports}
use act_web_server_rs.Gateway.{GatewayError, invalid_request}
use act_web_server_rs.Gateway.Keeps.{Keeps}
use act_web_server_rs.Gateway.State.{Server}
use act_web_server_rs.Gateway.Mtls.{
  connect, request, keep, exchange, exchange_and_keep, connection_or_connect, take_connection,
}
use act_web_server_rs.Gateway.Mtls.Setup.{PersistentMtlsClient}

module _ (p : Ports) where
  -- The operation's JSON can be sent: it is within the limit of a frame.
  abbrev pub IsSendable : AuthenticatedOperation → Type 0
  IsSendable operation =
      (payload : Bytes) × (p.encode operation ≡ some payload)
      × (length payload ≤ p.max_transport_bytes)

  connect-connection :
      (client : PersistentMtlsClient p) → Keeps p (λ s. s.connection) (connect p client)
  unfolding connect
  connect-connection client s = ground arith

  exchange-connection :
      (c : p.Connection) (payload : Bytes) → Keeps p (λ s. s.connection) (exchange p c payload)
  unfolding exchange
  exchange-connection c payload s = ground arith

  keep-slot :
      {A : Type 0} (c : p.Connection) (r : Result GatewayError A × Server p)
      → r.1.connection ≡ none
      → is_some (keep p c r).1.connection ≡ is_ok (keep p c r).0
  keep-slot c (ok a, s) h = refl
  keep-slot c (err e, s) h = rw h

  after_connection-slot :
      (payload : Bytes) (r : Result GatewayError p.Connection × Server p)
      → r.1.connection ≡ none
      → let t = after (λ c. exchange_and_keep p c payload) r in is_some t.1.connection ≡ is_ok t.0
  unfolding exchange_and_keep
  after_connection-slot payload (ok c, s) h =
      keep-slot c (exchange p c payload s) (exchange-connection c payload s ∙ h)
  after_connection-slot payload (err e, s) h = rw h

  from_slot :
      (client : PersistentMtlsClient p) (payload : Bytes) (s : Server p)
      (kept : Option p.Connection)
      → let t =
          (connection_or_connect p client kept >>= λ c. exchange_and_keep p c payload)
            (record s { connection = none }) in
        is_some t.1.connection ≡ is_ok t.0
  unfolding connection_or_connect
  from_slot client payload s none =
      after_connection-slot payload (connect p client (record s { connection = none }))
        (connect-connection client (record s { connection = none }))
  from_slot client payload s (some c) =
      after_connection-slot payload (ok c, record s { connection = none }) refl

  -- After a request that could be sent the slot holds a connection exactly if the request succeeded:
  -- a connection on which anything failed is never used again.
  pub request-slot :
      (client : PersistentMtlsClient p) (operation : AuthenticatedOperation) (s : Server p)
      → IsSendable operation
      → is_some (request p client operation s).1.connection ≡ is_ok (request p client operation s).0
  unfolding request
  request-slot client operation s (payload, encoded, fits) =
      rw (encoded, request) (ground (arith, from_slot client payload s s.connection))

  -- An operation that cannot be sent is refused, and nothing changes: neither the slot nor the world.
  pub request_unsendable :
      (client : PersistentMtlsClient p) (operation : AuthenticatedOperation) (s : Server p)
      → ¬ IsSendable operation
      → request p client operation s ≡ (err invalid_request, s)
  unfolding request
  request_unsendable client operation s h = elim (Option-cases (p.encode operation)) [
    | inl unencoded ↦ rw (unencoded, request)
    | inr (payload, encoded) ↦
        let over : p.max_transport_bytes < length payload =
          ground (arith, λ (q : length payload ≤ p.max_transport_bytes). h (payload, encoded, q)) in
        rw (encoded, request) (ground arith)
  ]

  -- With a kept connection no new one is made; with an empty slot a new one is, before the exchange.
  pub request-sendable :
      (client : PersistentMtlsClient p) (operation : AuthenticatedOperation) (s : Server p)
      (payload : Bytes)
      → p.encode operation ≡ some payload
      → length payload ≤ p.max_transport_bytes
      → request p client operation s
        ≡ (connection_or_connect p client s.connection >>= λ c. exchange_and_keep p c payload)
            (record s { connection = none })
  unfolding request take_connection
  request-sendable client operation s payload encoded fits = rw (encoded, request) (ground arith)

  -- A request that could be sent and failed leaves nothing behind: whatever is sent next goes over a
  -- connection that is made for it.
  pub request_after_failure :
      (client : PersistentMtlsClient p) (operation later : AuthenticatedOperation) (s : Server p)
      (e : GatewayError) (payload : Bytes)
      → IsSendable operation
      → (request p client operation s).0 ≡ err e
      → p.encode later ≡ some payload
      → length payload ≤ p.max_transport_bytes
      → let t = (request p client operation s).1 in
        request p client later t ≡ (connect p client >>= λ c. exchange_and_keep p c payload) t
  unfolding connection_or_connect
  request_after_failure client operation later s e payload sendable failure encoded fits =
      let slot = request-slot client operation s sendable in
      let empty : (request p client operation s).1.connection ≡ none = ground arith in
      rw (request-sendable client later (request p client operation s).1 payload encoded fits)
        (ground arith)
