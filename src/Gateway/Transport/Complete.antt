-- ===== src/Gateway/Transport/Complete.antt =====
-- src/data_plane.rs: when a submission to JetStream succeeds.
use act_web_server_rs.Common.{◌↔◌, ap, ℕ, ◌≡◌, ◌<◌, String, true, some, ok, arith}
use mathlib.Core.Path.{subst}
use act_web_server_rs.Operation.{AuthenticatedOperation, jet_stream_async}
use act_web_server_rs.Ports.{Ports}
use act_web_server_rs.Gateway.{GatewayReply, accepted, validate_identifier}
use act_web_server_rs.Gateway.State.{Server}
use act_web_server_rs.Gateway.Envelope.{
  attested_operation, operation_envelope, envelope_of, operation_id_of, now_unix_ms, unix_ms,
  fetch_sequence, validated, u64,
}
use act_web_server_rs.Gateway.Transport.{TransportGateway, jetstream_submit}
use act_web_server_rs.Gateway.Transport.Submission.{IsPublished, jetstream_submit_sound}

module _ (p : Ports) where
  -- the operation with the signature in place of a bearer
  abbrev pub signed_operation : String → String → ℕ → ℕ → AuthenticatedOperation
  signed_operation signature subject now sequence = record {
    authorization = signature;
    envelope = envelope_of subject jet_stream_async now sequence;
  }

  attested_operation_complete :
      (subject key signature : String) (now : ℕ) (s : Server p)
      → validate_identifier subject 256 ≡ ok tt
      → (p.clock s.world).0 ≡ some now
      → now < u64
      → p.sign_operation_attestation key (envelope_of subject jet_stream_async now s.sequence)
        ≡ some signature
      → p.validate (signed_operation signature subject now s.sequence) jet_stream_async ≡ true
      → (attested_operation p subject key s).0
        ≡ ok (signed_operation signature subject now s.sequence)
  unfolding attested_operation operation_envelope now_unix_ms unix_ms fetch_sequence validated
  attested_operation_complete subject key signature now s named clock small signed valid =
      ground arith

  -- A submission succeeds, with the operation's own id, if the subject is valid, the clock runs and is
  -- in range, the key is configured and signs the envelope, the contract accepts the operation, and the
  -- broker acknowledges it, published within the limit.
  pub jetstream_submit_complete :
      (g : TransportGateway p) (subject key signature : String) (now : ℕ) (s : Server p)
      → validate_identifier subject 256 ≡ ok tt
      → (p.clock s.world).0 ≡ some now
      → now < u64
      → g.operation_attestation_key ≡ some key
      → p.sign_operation_attestation key (envelope_of subject jet_stream_async now s.sequence)
        ≡ some signature
      → p.validate (signed_operation signature subject now s.sequence) jet_stream_async ≡ true
      → IsPublished p g
          (signed_operation signature subject now s.sequence)
          (attested_operation p subject key s).1.world
      → (jetstream_submit p g subject s).0
        ≡ ok (accepted (operation_id_of now s.sequence) "accepted")
  unfolding jetstream_submit envelope_of
  jetstream_submit_complete g subject key signature now s named clock small given signed valid
        published =
      let built =
        attested_operation_complete subject key signature now s named clock small signed valid in
      ground (
        arith, built, published.connected, published.encoded, published.fits, published.sent,
        published.acknowledged,
      )

  -- what the clock, the settings, the contract and the broker have to give for a submission
  pub record IsSubmitted (g : TransportGateway p) (subject : String) (s : Server p)
      (r : GatewayReply) : Type 0 where
    pub key : String
    pub signature : String
    pub now : ℕ
    pub named : validate_identifier subject 256 ≡ ok tt
    pub clock : (p.clock s.world).0 ≡ some now
    pub small : now < u64
    pub given : g.operation_attestation_key ≡ some key
    pub signed :
        p.sign_operation_attestation key (envelope_of subject jet_stream_async now s.sequence)
        ≡ some signature
    pub valid :
        p.validate (signed_operation signature subject now s.sequence) jet_stream_async ≡ true
    pub published :
        IsPublished p g
          (signed_operation signature subject now s.sequence)
          (attested_operation p subject key s).1.world
    pub reply : r ≡ accepted (operation_id_of now s.sequence) "accepted"

  -- A submission to JetStream succeeds exactly if the subject is valid, the clock is in range, the
  -- attestation key is configured and signs the envelope of this subject, the clock's time and the
  -- sequence number, the API server's contract accepts the signed operation, and the broker has
  -- acknowledged it, published within the limit of a transport under the dedupe header of its id; and
  -- the reply then is that the operation with this id is accepted.
  pub jetstream_submit_iff :
      (g : TransportGateway p) (subject : String) (s : Server p) (r : GatewayReply)
      → ((jetstream_submit p g subject s).0 ≡ ok r) ↔ IsSubmitted g subject s r
  jetstream_submit_iff g subject s r = (
    λ e.
        let (key, operation, now, made, given, envelope, signed, valid, published, reply) =
          jetstream_submit_sound p g subject s r e in
        let same : operation ≡ signed_operation operation.authorization subject now s.sequence =
          ap (λ v. record { authorization = operation.authorization; envelope = v }) envelope in
        record {
          key = key;
          signature = operation.authorization;
          now = now;
          named = made.subject_valid;
          clock = made.clock;
          small = made.in_u64;
          given = given;
          signed = rw envelope at signed;
          valid = rw same at valid;
          published =
              subst (λ o. IsPublished p g o (attested_operation p subject key s).1.world) same
                published;
          reply = reply;
        },
    λ h. rw (h.reply) (
        jetstream_submit_complete g subject h.key h.signature h.now s h.named h.clock h.small
          h.given h.signed h.valid h.published),
  )
