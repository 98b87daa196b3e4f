-- ===== src/Gateway/Overlap/Apart.antt =====
-- src/data_plane.rs: lists of calls whose operations have different ids.
use act_web_server_rs.Common.{
  ℕ, ◌≤◌, ◌≡◌, ◌≢◌, ◌∙◌, sym, String, none, some, List, [], ◌∷◌, ◌++◌, All, All-around, All-insert,
  arith,
}
use act_web_server_rs.Ports.{Ports}
use act_web_server_rs.Gateway.Envelope.{operation_id_of}
use act_web_server_rs.Gateway.Envelope.Ids.{operation_id_of_injective}
use act_web_server_rs.Gateway.Envelope.Issue.{IsBelow}
use act_web_server_rs.Gateway.Overlap.{Phase}
use act_web_server_rs.Gateway.Overlap.Ids.{id_of}

module _ {p : Ports} where
  -- The calls have not made operations of one id.
  abbrev pub Differs : Phase p → Phase p → Type 0
  Differs c d = (id : String) → id_of c ≡ some id → id_of d ≢ some id

  abbrev pub Apart : List (Phase p) → Type 0
  Apart [] = Unit {0}
  Apart (c ∷ calls) = All (Differs c) calls × Apart calls

  -- The call's id, if it has one, is made of a number below `n`.
  abbrev pub IsIssued : ℕ → Phase p → Type 0
  IsIssued n c = (id : String) → id_of c ≡ some id → IsBelow n id

  Differs-sym : (c d : Phase p) → Differs c d → Differs d c
  Differs-sym c d h id e e' = h id e' e

  pub All-Differs-none :
      (c : Phase p) (calls : List (Phase p)) → id_of c ≡ none → All (Differs c) calls
  All-Differs-none c [] e = tt
  All-Differs-none c (d ∷ calls) e = ((λ id h. absurd (ground arith)), All-Differs-none c calls e)

  pub All-Differs_congr :
      (c d : Phase p) (calls : List (Phase p))
      → id_of d ≡ id_of c
      → All (Differs c) calls
      → All (Differs d) calls
  All-Differs_congr c d [] e h = tt
  All-Differs_congr c d (other ∷ calls) e (h, rest) =
      ((λ id h'. h id (sym e ∙ h')), All-Differs_congr c d calls e rest)

  pub All-Differs_fresh :
      (c : Phase p) (now n : ℕ) (calls : List (Phase p))
      → id_of c ≡ some (operation_id_of now n)
      → All (IsIssued n) calls
      → All (Differs c) calls
  All-Differs_fresh c now n [] e h = tt
  All-Differs_fresh c now n (d ∷ calls) e (h, rest) = (
    (λ id mine theirs.
        let (now', q, below, other) = h id theirs in
        let same : operation_id_of now n ≡ id = ground arith in
        let (_, equal) = operation_id_of_injective now now' n q (same ∙ other) in
        absurd (omega arith)),
    All-Differs_fresh c now n calls e rest,
  )

  pub All-IsIssued_mono :
      (m n : ℕ) (calls : List (Phase p)) → m ≤ n → All (IsIssued m) calls → All (IsIssued n) calls
  All-IsIssued_mono m n [] h a = tt
  All-IsIssued_mono m n (c ∷ calls) h (a, rest) = (
    (λ id e. let (now, q, below, made_of) = a id e in (now, q, omega arith, made_of)),
    All-IsIssued_mono m n calls h rest,
  )

  -- the calls without the one in the middle, which differs from each of them
  pub Apart-around :
      (before : List (Phase p)) (c : Phase p) (behind : List (Phase p))
      → Apart (before ++ c ∷ behind)
      → All (Differs c) (before ++ behind) × Apart (before ++ behind)
  Apart-around [] c behind h = h
  Apart-around (d ∷ before) c behind (h, rest) =
      let (mine, others) = All-around (Differs d) before c behind h in
      let (theirs, apart) = Apart-around before c behind rest in
      ((Differs-sym d c mine, theirs), (others, apart))

  pub Apart-insert :
      (before : List (Phase p)) (c : Phase p) (behind : List (Phase p))
      → All (Differs c) (before ++ behind)
      → Apart (before ++ behind)
      → Apart (before ++ c ∷ behind)
  Apart-insert [] c behind h apart = (h, apart)
  Apart-insert (d ∷ before) c behind (h, rest) (others, apart) = (
    All-insert (Differs d) before c behind (Differs-sym c d h) others,
    Apart-insert before c behind rest apart,
  )
