-- ===== src/Gateway/Transport/Submission.antt =====
-- What the broker and the API server's contract have agreed to before a submission is accepted.
use act_web_server_rs.Common.{
  ℕ, ◌≤◌, ◌≡◌, String, true, some, ok, arith, Result-cases, Option-cases, inl, inr, Bytes, length,
}
use act_web_server_rs.Operation.{jet_stream_async, AuthenticatedOperation}
use act_web_server_rs.Ports.{Ports, Timed, elapsed, failed, done}
use act_web_server_rs.Gateway.{GatewayReply, accepted}
use act_web_server_rs.Gateway.State.{Server, timed}
use act_web_server_rs.Gateway.Envelope.{envelope_of, operation_id_of, attested_operation}
use act_web_server_rs.Gateway.Envelope.Laws.{IsMade, attested_operation_sound}
use act_web_server_rs.Gateway.Transport.{TransportGateway, jetstream_submit, dedupe_headers}

timed-eq-ok : {A : Type 0} (t : Timed A) (a : A) → timed t ≡ ok a → t ≡ done a
timed-eq-ok elapsed a e = cc
timed-eq-ok failed a e = cc
timed-eq-ok (done b) a e = ground arith

module _ (p : Ports) (g : TransportGateway p) where
  -- the broker's answers to an operation, sent to the world `w`
  pub record IsPublished (operation : AuthenticatedOperation) (w : p.World) : Type 0 where
    pub context : p.JetStream
    pub payload : Bytes
    pub ack : p.Ack
    pub connected : g.jetstream ≡ some context
    pub encoded : p.encode operation ≡ some payload
    pub fits : length payload ≤ p.max_transport_bytes
    pub sent :
        (p.publish context p.request_subject
          (dedupe_headers p g operation.envelope.operation_id)
          payload
          w).0
        ≡ done ack
    pub acknowledged :
        (p.acknowledged ack
          (p.publish context p.request_subject
            (dedupe_headers p g operation.envelope.operation_id)
            payload
            w).1).0
        ≡ done tt

  submission_of :
      (subject : String) (s : Server p) (r : GatewayReply) (context : p.JetStream) (key : String)
      (operation : AuthenticatedOperation)
      → g.jetstream ≡ some context
      → g.operation_attestation_key ≡ some key
      → (attested_operation p subject key s).0 ≡ ok operation
      → (jetstream_submit p g subject s).0 ≡ ok r
      → IsPublished operation (attested_operation p subject key s).1.world
        × (r ≡ accepted operation.envelope.operation_id "accepted")
  unfolding jetstream_submit
  submission_of subject s r context key operation hc hk built e =
      elim (Option-cases (p.encode operation)) [
        | inl unencoded ↦ absurd (ground arith)
        | inr (payload, encoded) ↦
            let w = (attested_operation p subject key s).1.world in
            let sent =
              p.publish context p.request_subject
                (dedupe_headers p g operation.envelope.operation_id) payload w in
            elim (Result-cases (timed sent.0)) [
              | inr (e', lost) ↦ absurd (ground arith)
              | inl (ack, got) ↦ (
                record {
                  context = context;
                  payload = payload;
                  ack = ack;
                  connected = hc;
                  encoded = encoded;
                  fits = ground arith;
                  sent = timed-eq-ok sent.0 ack got;
                  acknowledged = timed-eq-ok (p.acknowledged ack sent.1).0 tt (ground arith);
                },
                ground arith,
              )
            ]
      ]

  -- An accepted JetStream operation is for a valid subject, and has the id that its envelope carries,
  -- made of the clock and the sequence number. The envelope, with that id as its dedupe key, is signed with the attestation key
  -- and accepted by the API server's contract; its JSON is within the limit of a transport; and the
  -- broker has acknowledged it, published under the dedupe header of that id.
  pub jetstream_submit_sound :
      (subject : String) (s : Server p) (r : GatewayReply)
      → (jetstream_submit p g subject s).0 ≡ ok r
      → (key : String) × (operation : AuthenticatedOperation) × (now : ℕ) × IsMade p subject s
          (attested_operation p subject key s).1
          now
        × (g.operation_attestation_key ≡ some key)
        × (operation.envelope ≡ envelope_of subject jet_stream_async now s.sequence)
        × (p.sign_operation_attestation key operation.envelope ≡ some operation.authorization)
        × (p.validate operation jet_stream_async ≡ true)
        × IsPublished operation (attested_operation p subject key s).1.world
        × (r ≡ accepted (operation_id_of now s.sequence) "accepted")
  unfolding jetstream_submit envelope_of
  jetstream_submit_sound subject s r e = elim (Option-cases g.jetstream) [
    | inl absent ↦ absurd (ground arith)
    | inr (context, hc) ↦ elim (Option-cases g.operation_attestation_key) [
      | inl absent ↦ absurd (ground arith)
      | inr (key, hk) ↦ elim (Result-cases (attested_operation p subject key s).0) [
        | inr (e', refused) ↦ absurd (ground arith)
        | inl (operation, built) ↦
            let (now, made, signed, envelope, valid) =
              attested_operation_sound p subject key s operation built in
            let (published, whole) =
              submission_of subject s r context key operation hc hk built e in
            (key, operation, now, made, hk, envelope, signed, valid, published, ground arith)
      ]
    ]
  ]
