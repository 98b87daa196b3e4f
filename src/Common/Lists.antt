-- ===== src/Common/Lists.antt =====
-- Lists measured by native numbers, predicates by recursion, and the lists that the server builds.
use Prim.Native.Nat.{ℕ, suc, ◌+◌}
use mathlib.Core.Path.{◌≡◌}
use mathlib.Core.Logic.{◌≢◌}
use mathlib.Core.List.{List, [], ◌∷◌, ◌++◌}
use native.Mathlib.Omega.{arith}

-- a byte string
abbrev pub Bytes : Type 0
Bytes = List ℕ

module _ {ℓ} {A : Type ℓ} where
  abbrev pub length : List A → ℕ
  length [] = 0
  length (x ∷ xs) = suc (length xs)

  pub length-append : (xs ys : List A) → length (xs ++ ys) ≡ length xs + length ys
  length-append [] ys = omega arith
  length-append (x ∷ xs) ys = omega (arith, length-append xs ys)

abbrev pub All {ℓ κ} : {A : Type ℓ} → (A → Type κ) → List A → Type κ
All P [] = Unit
All P (x ∷ xs) = P x × All P xs

-- no two elements are equal
abbrev pub Distinct {ℓ} : {A : Type ℓ} → List A → Type ℓ
Distinct [] = Unit
Distinct (x ∷ xs) = All (λ y. x ≢ y) xs × Distinct xs

module _ {ℓ κ} {A : Type ℓ} (P : A → Type κ) where
  -- a predicate over a list with the element `x` in it
  pub All-around :
      (xs : List A) (x : A) (ys : List A) → All P (xs ++ x ∷ ys) → P x × All P (xs ++ ys)
  All-around [] x ys h = h
  All-around (y ∷ xs) x ys (h, rest) =
      let (found, others) = All-around xs x ys rest in (found, (h, others))

  pub All-insert :
      (xs : List A) (x : A) (ys : List A) → P x → All P (xs ++ ys) → All P (xs ++ x ∷ ys)
  All-insert [] x ys new h = (new, h)
  All-insert (y ∷ xs) x ys new (h, rest) = (h, All-insert xs x ys new rest)
