-- ===== src/Gateway/Transport/Sequence.antt =====
-- What a read does to the sequence number, and which id it accepts.
use act_web_server_rs.Common.{ℕ, ◌+◌, ◌-◌, ◌%◌, ◌≡◌, ◌≢◌, ◌⊎◌, inl, String, some, ok, arith}
use act_web_server_rs.Operation.{
  WebApiMode, direct_read_only_database, stateless_http, stateful_mtls_tcp, jet_stream_async,
  AuthenticatedOperation,
}
use act_web_server_rs.Ports.{Ports}
use act_web_server_rs.Gateway.{accepted}
use act_web_server_rs.Gateway.State.{Server}
use act_web_server_rs.Gateway.Envelope.{u64, operation_id_of, bearer_operation, attested_operation}
use act_web_server_rs.Gateway.Http.{bounded_http_get}
use act_web_server_rs.Gateway.Keeps.{Keeps}
use act_web_server_rs.Gateway.Mtls.{request}
use act_web_server_rs.Gateway.Mtls.Setup.{PersistentMtlsClient}
use act_web_server_rs.Gateway.Transport.{
  TransportGateway, read_mode, direct_read, http_read, tcp_read, jetstream_submit, read,
}
use act_web_server_rs.Gateway.Transport.Laws.{tcp_read_sound}
use act_web_server_rs.Gateway.Transport.Submission.{jetstream_submit_sound}

module _ (p : Ports) where
  -- The sequence number stays, or moves on by one.
  abbrev pub Advances : Server p → Server p → Type 0
  Advances s t = (t.sequence ≡ s.sequence) ⊎ (t.sequence ≡ (s.sequence + 1) % u64)

  bearer_operation-Advances :
      (subject authorization : String) (mode : WebApiMode) (s : Server p)
      → Advances s (bearer_operation p subject authorization mode s).1
  unfolding bearer_operation
  bearer_operation-Advances subject authorization mode s = ground arith

  attested_operation-Advances :
      (subject key : String) (s : Server p) → Advances s (attested_operation p subject key s).1
  unfolding attested_operation
  attested_operation-Advances subject key s = ground arith

  request-sequence :
      (client : PersistentMtlsClient p)
      → (operation : AuthenticatedOperation)
      → Keeps p (λ s. s.sequence) (request p client operation)
  unfolding request
  request-sequence client operation s = ground arith

  module _ (g : TransportGateway p) where
    pub direct_read-sequence :
        (subject : String) → Keeps p (λ s. s.sequence) (direct_read p g subject)
    unfolding direct_read
    direct_read-sequence subject s = ground arith

    pub http_read-sequence :
        (authorization : String) → Keeps p (λ s. s.sequence) (http_read p g authorization)
    unfolding http_read bounded_http_get
    http_read-sequence authorization s = ground arith

    tcp_read-Advances :
        (subject authorization : String) (s : Server p)
        → Advances s (tcp_read p g subject authorization s).1
    unfolding tcp_read
    tcp_read-Advances subject authorization s = grind (
      arith,
      request-sequence,
      bearer_operation-Advances subject authorization stateful_mtls_tcp s,
    )

    pub jetstream_submit-Advances :
        (subject : String) (s : Server p) → Advances s (jetstream_submit p g subject s).1
    unfolding jetstream_submit
    jetstream_submit-Advances subject s = grind (arith, attested_operation-Advances)

    read_mode-Advances :
        (mode : WebApiMode) (subject authorization : String) (s : Server p)
        → Advances s (read_mode p g mode subject authorization s).1
    unfolding read_mode
    read_mode-Advances direct_read_only_database subject authorization s =
        inl (direct_read-sequence subject s)
    read_mode-Advances stateless_http subject authorization s =
        inl (http_read-sequence authorization s)
    read_mode-Advances stateful_mtls_tcp subject authorization s =
        tcp_read-Advances subject authorization s
    read_mode-Advances jet_stream_async subject authorization s =
        jetstream_submit-Advances subject s

    pub read-Advances :
        (mode : WebApiMode) (subject authorization : String) (s : Server p)
        → Advances s (read p g mode subject authorization s).1
    unfolding read
    read-Advances mode subject authorization s = grind (arith, read_mode-Advances)

    -- Where an operation is accepted, its id is made of this sequence number, which is spent.
    abbrev pub Spends : String → Server p → Server p → Type 0
    Spends id s t =
        ((now : ℕ) × (id ≡ operation_id_of now s.sequence)) × (t.sequence ≡ (s.sequence + 1) % u64)

    pub jetstream_submit-Spends :
        (subject : String) (s : Server p) (id note : String)
        → (jetstream_submit p g subject s).0 ≡ ok (accepted id note)
        → Spends id s (jetstream_submit p g subject s).1
    unfolding jetstream_submit
    jetstream_submit-Spends subject s id note e =
        let (key, operation, now, made, hk, envelope, signed, valid, published, whole) =
          jetstream_submit_sound p g subject s (accepted id note) e in
        let moved : (attested_operation p subject key s).1.sequence ≡ (s.sequence + 1) % u64 =
          made.sequence in
        let attested : g.jetstream ≡ some published.context = published.connected in
        ((now, ground arith), ground arith)

    pub direct_read-ne-accepted :
        (subject : String) (s : Server p) (id note : String)
        → (direct_read p g subject s).0 ≢ ok (accepted id note)
    unfolding direct_read
    direct_read-ne-accepted subject s id note e = ground arith

    pub http_read-ne-accepted :
        (authorization : String) (s : Server p) (id note : String)
        → (http_read p g authorization s).0 ≢ ok (accepted id note)
    unfolding http_read
    http_read-ne-accepted authorization s id note e = ground arith

    read_mode-Spends :
        (mode : WebApiMode) (subject authorization : String) (s : Server p) (id note : String)
        → (read_mode p g mode subject authorization s).0 ≡ ok (accepted id note)
        → Spends id s (read_mode p g mode subject authorization s).1
    unfolding read_mode
    read_mode-Spends direct_read_only_database subject authorization s id note e =
        absurd (direct_read-ne-accepted subject s id note e)
    read_mode-Spends stateless_http subject authorization s id note e =
        absurd (http_read-ne-accepted authorization s id note e)
    read_mode-Spends stateful_mtls_tcp subject authorization s id note e =
        let (
          client,
          here,
          (
            operation,
            now,
            built,
            bearer,
            envelope,
            valid,
            (reply, content, got, same, fine, found, whole),
          ),
        ) =
          tcp_read_sound p g subject authorization s (accepted id note) e in
        absurd (cc)
    read_mode-Spends jet_stream_async subject authorization s id note e =
        jetstream_submit-Spends subject s id note e

    pub read-Spends :
        (mode : WebApiMode) (subject authorization : String) (s : Server p) (id note : String)
        → (read p g mode subject authorization s).0 ≡ ok (accepted id note)
        → Spends id s (read p g mode subject authorization s).1
    unfolding read
    read-Spends mode subject authorization s id note e = ground (
      arith,
      read_mode-Spends mode subject authorization (record s { permits = s.permits - 1 }) id note,
    )
