-- ===== src/Gateway/Transport/Laws.antt =====
-- What a read of each mode promises.
use act_web_server_rs.Common.{
  ℕ, ◌≡◌, ◌≢◌, ◌⊎◌, String, true, none, some, ok, err, arith, Result-cases, Option-cases, inl, inr,
  eq_iff,
}
use act_web_server_rs.Common.Json.{Value}
use act_web_server_rs.Operation.{
  WebApiMode, direct_read_only_database, stateless_http, jet_stream_async, stateful_mtls_tcp,
  AuthenticatedOperation, OperationReply,
}
use act_web_server_rs.Ports.{Ports}
use act_web_server_rs.Gateway.{
  unauthorized, invalid_request, GatewayReply, projection, validate_authorization,
  validate_identifier,
}
use act_web_server_rs.Gateway.State.{Server}
use act_web_server_rs.Gateway.Envelope.{envelope_of, bearer_operation}
use act_web_server_rs.Gateway.Envelope.Laws.{bearer_operation_sound}
use act_web_server_rs.Gateway.Mtls.{request}
use act_web_server_rs.Gateway.Mtls.Setup.{PersistentMtlsClient}
use act_web_server_rs.Gateway.Transport.{
  TransportGateway, read_mode, read, status, tcp_read, reply_of,
}

module _ (p : Ports) (g : TransportGateway p) where
  -- A read with an authorization that is not well formed is refused with `Unauthorized` and changes
  -- nothing: no permit is taken, no sequence number is spent and the world is not touched.
  pub read_unauthorized :
      (mode : WebApiMode) (subject authorization : String) (s : Server p)
      → validate_authorization p.max_authorization_bytes authorization ≢ ok tt
      → read p g mode subject authorization s ≡ (err unauthorized, s)
  unfolding read validate_authorization
  read_unauthorized mode subject authorization s h = ground arith

  -- In the database and the JetStream mode the bearer decides only whether it is well formed: two
  -- reads with well-formed bearers have the same result and the same effect on the gateway and on the
  -- world, so neither the database nor the broker can learn anything of the bearer.
  pub read_ignores_bearer :
      (mode : WebApiMode) (subject bearer bearer' : String) (s : Server p)
      → (mode ≡ direct_read_only_database) ⊎ (mode ≡ jet_stream_async)
      → validate_authorization p.max_authorization_bytes bearer ≡ ok tt
      → validate_authorization p.max_authorization_bytes bearer' ≡ ok tt
      → read p g mode subject bearer s ≡ read p g mode subject bearer' s
  unfolding read read_mode
  read_ignores_bearer direct_read_only_database subject bearer bearer' s which h h' = ground arith
  read_ignores_bearer stateless_http subject bearer bearer' s which h h' = ground arith
  read_ignores_bearer stateful_mtls_tcp subject bearer bearer' s which h h' = ground arith
  read_ignores_bearer jet_stream_async subject bearer bearer' s which h h' = ground arith

  -- What `tcp_read` accepts of a reply: the operation's own id, no error, and a result.
  reply_of_sound :
      (expected_id : String) (reply : OperationReply p.Failure) (r : GatewayReply)
      → reply_of p g expected_id reply ≡ ok r
      → (reply.operation_id ≡ some expected_id)
        × (reply.error ≡ none)
        × ((content : Value) × (reply.result ≡ some content)
            × (r ≡ projection stateful_mtls_tcp content))
  unfolding reply_of
  reply_of_sound expected_id reply r e = elim (Option-cases reply.operation_id) [
    | inl absent ↦ absurd (ground arith)
    | inr (id, given) ↦ elim (Option-cases reply.result) [
      | inl absent ↦ absurd (ground arith)
      | inr (content, found) ↦
          (ground (arith, eq_iff id expected_id), ground arith, (content, found, ground arith))
    ]
  ]

  -- A success in the mTLS mode is the result of a reply that carries this operation's own id and no
  -- error, to an operation with the caller's bearer and subject, the clock's time and the gateway's
  -- sequence number, which the contract of the API server accepts.
  pub tcp_read_sound :
      (subject authorization : String) (s : Server p) (r : GatewayReply)
      → (tcp_read p g subject authorization s).0 ≡ ok r
      → (client : PersistentMtlsClient p) × (g.tcp ≡ some client)
        × ((operation : AuthenticatedOperation) × (now : ℕ) × ((bearer_operation p subject
                authorization stateful_mtls_tcp s).0
              ≡ ok operation)
            × (operation.authorization ≡ authorization)
            × (operation.envelope ≡ envelope_of subject stateful_mtls_tcp now s.sequence)
            × (p.validate operation stateful_mtls_tcp ≡ true)
            × ((reply : OperationReply p.Failure) × (content : Value) × ((request p client operation
                    (bearer_operation p subject authorization stateful_mtls_tcp s).1).0
                  ≡ ok reply)
                × (reply.operation_id ≡ some operation.envelope.operation_id)
                × (reply.error ≡ none)
                × (reply.result ≡ some content)
                × (r ≡ projection stateful_mtls_tcp content)))
  unfolding tcp_read
  tcp_read_sound subject authorization s r e = elim (Option-cases g.tcp) [
    | inl absent ↦ absurd (ground arith)
    | inr (client, present) ↦
        elim (Result-cases (bearer_operation p subject authorization stateful_mtls_tcp s).0) [
          | inr (e', failed) ↦ absurd (ground arith)
          | inl (operation, built) ↦
              elim (Result-cases
                (request p client operation
                  (bearer_operation p subject authorization stateful_mtls_tcp s).1).0) [
                    | inr (e', failed) ↦ absurd (ground arith)
                    | inl (reply, answered) ↦
                        let (now, made, bearer, envelope, plain, valid) =
                          bearer_operation_sound p subject authorization stateful_mtls_tcp s
                            operation built in
                        let (same, fine, (content, found, whole)) =
                          reply_of_sound operation.envelope.operation_id reply r (ground arith) in
                        (
                          client,
                          present,
                          (
                            operation,
                            now,
                            built,
                            bearer,
                            envelope,
                            valid,
                            (reply, content, answered, same, fine, found, whole),
                          ),
                        )
                  ]
        ]
  ]

  -- The status of an operation is asked for only under an id of 1 to 128 bytes with no control
  -- character and no white space at either end; any other is refused with `InvalidRequest`, and nothing
  -- changes.
  pub status_invalid :
      (operation_id authorization : String) (s : Server p)
      → validate_identifier operation_id 128 ≢ ok tt
      → status p g operation_id authorization s ≡ (err invalid_request, s)
  unfolding status validate_identifier
  status_invalid operation_id authorization s h = ground arith
