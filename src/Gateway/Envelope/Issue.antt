-- ===== src/Gateway/Envelope/Issue.antt =====
-- Envelopes that requests make at the same time, in any order: `OPERATION_SEQUENCE` is atomic, so each
-- step takes one number, and the world and the rest of the state may change in between.
use act_web_server_rs.Common.{
  ℕ, ◌%◌, ◌≡◌, ◌≢◌, ◌<◌, ◌≤◌, ◌+◌, ◌∙◌, String, List, [], ◌∷◌, ok, arith, length, All, Option-cases,
  inl, inr, Distinct,
}
use act_web_server_rs.Operation.{WebApiMode, OperationEnvelope}
use act_web_server_rs.Ports.{Ports}
use act_web_server_rs.Gateway.State.{Server}
use act_web_server_rs.Gateway.Envelope.{
  operation_envelope, operation_id_of, envelope_of, now_unix_ms, unix_ms, fetch_sequence, u64,
}
use act_web_server_rs.Gateway.Envelope.Ids.{operation_id_of_injective}

-- the gateway with the ids of the envelopes made so far, the last first
pub record Ledger (p : Ports) : Type 0 where
  pub server : Server p
  pub issued : List String

abbrev pub IsBelow : ℕ → String → Type 0
IsBelow n id = (now : ℕ) × (sequence : ℕ) × (sequence < n) × (id ≡ operation_id_of now sequence)

IsBelow-mono : (m n : ℕ) (ids : List String) → m ≤ n → All (IsBelow m) ids → All (IsBelow n) ids
IsBelow-mono m n [] h a = tt
IsBelow-mono m n (id ∷ ids) h ((now, sequence, lt, e), a) =
    ((now, sequence, omega arith, e), IsBelow-mono m n ids h a)

differs_from_below :
    (now n : ℕ) (ids : List String)
    → All (IsBelow n) ids
    → All (λ other. operation_id_of now n ≢ other) ids
differs_from_below now n [] a = tt
differs_from_below now n (id ∷ ids) ((now', sequence, lt, e), a) = (
  (λ same.
      let (_, equal) = operation_id_of_injective now now' n sequence (same ∙ e) in
      absurd (omega arith)),
  differs_from_below now n ids a,
)

module _ (p : Ports) where
  pub data Issue (a b : Ledger p) : Type 0 where
    issue :
        (subject : String) (mode : WebApiMode) (envelope : OperationEnvelope)
        → operation_envelope p subject mode a.server ≡ (ok envelope, b.server)
        → b.issued ≡ envelope.operation_id ∷ a.issued
        → Issue a b
    other : b.server.sequence ≡ a.server.sequence → b.issued ≡ a.issued → Issue a b

  pub data Issues (a : Ledger p) : Ledger p → Type 0 where
    none_yet : Issues a a
    then_one : {b c : Ledger p} → Issues a b → Issue b c → Issues a c

  operation_envelope_id :
      (subject : String) (mode : WebApiMode) (envelope : OperationEnvelope) (s t : Server p)
      → operation_envelope p subject mode s ≡ (ok envelope, t)
      → (now : ℕ) × (envelope.operation_id ≡ operation_id_of now s.sequence)
        × (t.sequence ≡ (s.sequence + 1) % u64)
  unfolding operation_envelope now_unix_ms fetch_sequence envelope_of unix_ms
  operation_envelope_id subject mode envelope s t e = elim (Option-cases (p.clock s.world).0) [
    | inl absent ↦ absurd (ground arith)
    | inr (now, given) ↦ (now, ground arith, ground arith)
  ]

  -- from the number `n`, as long as the numbers do not wrap
  abbrev IsFresh : ℕ → Ledger p → Type 0
  IsFresh n b =
      n + length b.issued < u64
      → (b.server.sequence ≡ n + length b.issued)
        × All (IsBelow b.server.sequence) b.issued
        × Distinct b.issued

  Issue-IsFresh : (n : ℕ) (a b : Ledger p) → Issue a b → IsFresh n a → IsFresh n b
  Issue-IsFresh n a b (other same kept) fresh bound = rw (same, kept) (fresh (rw kept at bound))
  Issue-IsFresh n a b (issue subject mode envelope made noted) fresh bound =
      let (now, e, moved) = operation_envelope_id subject mode envelope a.server b.server made in
      let longer : length b.issued ≡ length a.issued + 1 = rw noted (omega arith) in
      let (count, below, distinct) = fresh (omega arith) in
      let next : b.server.sequence ≡ a.server.sequence + 1 = omega arith in
      (
        omega arith,
        rw noted (
          (now, a.server.sequence, omega arith, e),
          IsBelow-mono a.server.sequence b.server.sequence a.issued (omega arith) below,
        ),
        rw (noted, e) (differs_from_below now a.server.sequence a.issued below, distinct),
      )

  Issues-IsFresh : (n : ℕ) (a b : Ledger p) → IsFresh n a → Issues a b → IsFresh n b
  Issues-IsFresh n a b fresh none_yet = fresh
  Issues-IsFresh n a b fresh (then_one {b = c} r step) =
      Issue-IsFresh n c b step (Issues-IsFresh n a c fresh r)

  none_made : (a : Ledger p) → a.issued ≡ [] → IsFresh a.server.sequence a
  none_made a empty bound = rw empty (omega arith, tt, tt)

  -- However requests interleave, the envelopes that they make have distinct ids, as long as the
  -- sequence number does not pass 2^64.
  pub Issues-Distinct :
      (a b : Ledger p)
      → a.issued ≡ []
      → Issues a b
      → a.server.sequence + length b.issued < u64
      → Distinct b.issued
  Issues-Distinct a b empty r bound =
      (Issues-IsFresh a.server.sequence a b (none_made a empty) r bound).2
