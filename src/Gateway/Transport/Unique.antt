-- ===== src/Gateway/Transport/Unique.antt =====
-- src/data_plane.rs: the ids that the reads of one process accept.
use act_web_server_rs.Common.{
  Distinct, ℕ, ◌+◌, ◌≤◌, ◌<◌, ◌≡◌, ◌≢◌, refl, ◌∙◌, String, List, [], ◌∷◌, ◌++◌, Result, ok, err,
  arith, All, length,
}
use act_web_server_rs.Operation.{WebApiMode}
use act_web_server_rs.Ports.{Ports}
use act_web_server_rs.Gateway.{GatewayError, GatewayReply, projection, accepted}
use act_web_server_rs.Gateway.State.{Server}
use act_web_server_rs.Gateway.Envelope.{u64, operation_id_of}
use act_web_server_rs.Gateway.Envelope.Ids.{operation_id_of_injective}
use act_web_server_rs.Gateway.Transport.{TransportGateway, read}
use act_web_server_rs.Gateway.Transport.Sequence.{Advances, Spends, read-Advances, read-Spends}

module _ (p : Ports) (g : TransportGateway p) where
  -- the ids that a result has accepted
  abbrev pub id_of : Result GatewayError GatewayReply → List String
  id_of (ok (accepted id note)) = id ∷ []
  id_of (ok (projection mode content)) = []
  id_of (err e) = []

  -- the ids accepted by reads that follow one another, in order
  unfoldable pub accepted_ids : List (WebApiMode × String × String) → Server p → List String
  accepted_ids [] s = []
  accepted_ids ((mode, subject, authorization) ∷ reads) s =
      let (r, t) = read p g mode subject authorization s in id_of r ++ accepted_ids reads t

  abbrev IsLater : ℕ → String → Type 0
  IsLater n id = (now : ℕ) × (sequence : ℕ) × (n ≤ sequence) × (id ≡ operation_id_of now sequence)

  IsLater-mono : (m n : ℕ) (ids : List String) → m ≤ n → All (IsLater n) ids → All (IsLater m) ids
  IsLater-mono m n [] h a = tt
  IsLater-mono m n (id ∷ ids) h ((now, sequence, le, e), a) =
      ((now, sequence, omega arith, e), IsLater-mono m n ids h a)

  later_differs :
      (now n : ℕ) (ids : List String)
      → All (IsLater (n + 1)) ids
      → All (λ other. operation_id_of now n ≢ other) ids
  later_differs now n [] a = tt
  later_differs now n (id ∷ ids) ((now', sequence, le, e), a) = (
    (λ same.
        let same_sequence : n ≡ sequence =
          (operation_id_of_injective now now' n sequence (same ∙ e)).1 in
        omega arith),
    later_differs now n ids a,
  )

  with_rest :
      (s t : Server p) (r : Result GatewayError GatewayReply) (rest : List String)
      → ((id note : String) → r ≡ ok (accepted id note) → Spends p g id s t)
      → Advances p s t
      → s.sequence + 1 < u64
      → All (IsLater t.sequence) rest × Distinct rest
      → All (IsLater s.sequence) (id_of r ++ rest) × Distinct (id_of r ++ rest)
  with_rest s t (ok (accepted id note)) rest spends advances room (later, distinct) =
      let ((now, e), moved) = spends id note refl in
      let next : t.sequence ≡ s.sequence + 1 = omega arith in
      (
        (
          (now, s.sequence, omega arith, e),
          IsLater-mono s.sequence t.sequence rest (omega arith) later,
        ),
        (
          rw e (
              later_differs now s.sequence rest
                (IsLater-mono (s.sequence + 1) t.sequence rest (omega arith) later)),
          distinct,
        ),
      )
  with_rest s t (ok (projection mode content)) rest spends advances room (later, distinct) =
      (IsLater-mono s.sequence t.sequence rest (omega arith) later, distinct)
  with_rest s t (err e) rest spends advances room (later, distinct) =
      (IsLater-mono s.sequence t.sequence rest (omega arith) later, distinct)

  accepted_ids-IsLater :
      (reads : List (WebApiMode × String × String)) (s : Server p)
      → s.sequence + length reads < u64
      → All (IsLater s.sequence) (accepted_ids reads s) × Distinct (accepted_ids reads s)
  unfolding accepted_ids
  accepted_ids-IsLater [] s h = (tt, tt)
  accepted_ids-IsLater ((mode, subject, authorization) ∷ reads) s h =
      let t = (read p g mode subject authorization s).1 in
      let advances = read-Advances p g mode subject authorization s in
      with_rest s t (read p g mode subject authorization s).0 (accepted_ids reads t)
        (read-Spends p g mode subject authorization s) advances (omega arith)
        (accepted_ids-IsLater reads t (omega arith))

  -- In a row of reads, of any modes, subjects and bearers and with any results, no two accepted
  -- operations have one id, as long as the sequence number does not pass 2^64.
  pub accepted_ids-Distinct :
      (reads : List (WebApiMode × String × String)) (s : Server p)
      → s.sequence + length reads < u64
      → Distinct (accepted_ids reads s)
  accepted_ids-Distinct reads s h = (accepted_ids-IsLater reads s h).1
