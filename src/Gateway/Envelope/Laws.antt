-- ===== src/Gateway/Envelope/Laws.antt =====
-- What an authenticated operation holds.
use act_web_server_rs.Common.{
  ℕ, ◌+◌, ◌%◌, ◌<◌, ◌≡◌, String, true, false, Option, none, some, ok, arith, Result-cases, inl, inr,
}
use act_web_server_rs.Operation.{WebApiMode, jet_stream_async, AuthenticatedOperation}
use act_web_server_rs.Ports.{Ports}
use act_web_server_rs.Gateway.{validate_identifier}
use act_web_server_rs.Gateway.State.{Server}
use act_web_server_rs.Gateway.Envelope.{
  u64, is_jet_stream, envelope_of, unix_ms, bearer_operation, attested_operation,
}

module _ (p : Ports) where
  -- An envelope is made of a valid subject, the clock and the sequence number, which moves on by one;
  -- nothing else of the gateway's own state changes.
  pub record IsMade (subject : String) (s t : Server p) (now : ℕ) : Type 0 where
    pub subject_valid : validate_identifier subject 256 ≡ ok tt
    pub clock : (p.clock s.world).0 ≡ some now
    pub in_u64 : now < u64
    pub sequence : t.sequence ≡ (s.sequence + 1) % u64
    pub connection : t.connection ≡ s.connection
    pub permits : t.permits ≡ s.permits

  now_of_unix_ms :
      (clock : Option ℕ) (now : ℕ) → unix_ms clock ≡ ok now → (clock ≡ some now) × (now < u64)
  unfolding unix_ms
  now_of_unix_ms none now e = cc
  now_of_unix_ms (some millis) now e = ground arith

  -- An operation with the browser's bearer holds that bearer, is for a mode other than JetStream, and
  -- has the envelope of its subject at this time and sequence number; it is accepted by `validate`.
  pub bearer_operation_sound :
      (subject authorization : String) (mode : WebApiMode) (s : Server p)
      (operation : AuthenticatedOperation)
      → (bearer_operation p subject authorization mode s).0 ≡ ok operation
      → (now : ℕ) × IsMade subject s (bearer_operation p subject authorization mode s).1 now
        × (operation.authorization ≡ authorization)
        × (operation.envelope ≡ envelope_of subject mode now s.sequence)
        × (is_jet_stream mode ≡ false)
        × (p.validate operation mode ≡ true)
  unfolding bearer_operation
  bearer_operation_sound subject authorization mode s operation e =
      elim (Result-cases (unix_ms (p.clock s.world).0)) [
        | inl (now, known) ↦
            let (at, small) = now_of_unix_ms (p.clock s.world).0 now known in
            (now, ground arith, ground arith, ground arith, ground arith, ground arith)
        | inr (e', unknown) ↦ absurd (ground arith)
      ]

  -- An attested operation holds the signature of its envelope in place of a bearer.
  pub attested_operation_sound :
      (subject key : String) (s : Server p) (operation : AuthenticatedOperation)
      → (attested_operation p subject key s).0 ≡ ok operation
      → (now : ℕ) × IsMade subject s (attested_operation p subject key s).1 now
        × (p.sign_operation_attestation key operation.envelope ≡ some operation.authorization)
        × (operation.envelope ≡ envelope_of subject jet_stream_async now s.sequence)
        × (p.validate operation jet_stream_async ≡ true)
  unfolding attested_operation
  attested_operation_sound subject key s operation e =
      elim (Result-cases (unix_ms (p.clock s.world).0)) [
        | inl (now, known) ↦
            let (at, small) = now_of_unix_ms (p.clock s.world).0 now known in
            (now, ground arith, ground arith, ground arith, ground arith)
        | inr (e', unknown) ↦ absurd (ground arith)
      ]
