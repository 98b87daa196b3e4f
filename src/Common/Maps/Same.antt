-- ===== src/Common/Maps/Same.antt =====
-- Sets of texts, told apart by their members alone.
use Prim.Native.Nat.{Ordering}
use Prim.Native.String.{String, compare}
use mathlib.Core.Path.{◌≡◌, refl, sym, ◌∙◌, ap}
use mathlib.Core.Bool.{Bool, false, ◌||◌}
use mathlib.Core.List.{List, [], ◌∷◌}
use mathlib.Core.Logic.{inl, inr, ◌⊎◌, ◌≢◌}
use native.Mathlib.Omega.{arith}
use text.Mathlib.Text.{◌==◌}
use text.Mathlib.TextEquality.{eq_iff, path_by_compare}
use text.Mathlib.TextPositions.{compare_refl, eq_refl}
use act_web_server_rs.Common.Booleans.{Bool-cases}
use act_web_server_rs.Common.Lists.{All}
use act_web_server_rs.Common.Maps.{add, set_of}
use act_web_server_rs.Common.Maps.Order.{compare-lt_trans, compare-gt}

abbrev pub has : String → List String → Bool
has name [] = false
has name (x ∷ xs) = (name == x) || has name xs

-- The lists have the same members.
abbrev pub SameMembers : List String → List String → Type 0
SameMembers xs ys = (name : String) → has name xs ≡ has name ys

abbrev pub IsBelow : String → List String → Type 0
IsBelow x xs = All (λ y. compare x y ≡ Ordering.lt) xs

abbrev pub IsSorted : List String → Type 0
IsSorted [] = Unit
IsSorted (x ∷ xs) = IsBelow x xs × IsSorted xs

Ordering-cases : (o : Ordering) → (o ≡ Ordering.lt) ⊎ ((o ≡ Ordering.eq) ⊎ (o ≡ Ordering.gt))
Ordering-cases Ordering.lt = inl refl
Ordering-cases Ordering.eq = inr (inl refl)
Ordering-cases Ordering.gt = inr (inr refl)

add_lt :
    (name x : String) (xs : List String)
    → compare name x ≡ Ordering.lt
    → add name (x ∷ xs) ≡ name ∷ x ∷ xs
unfolding add
add_lt name x xs e = rw (add, e) refl

add_eq :
    (name x : String) (xs : List String) → compare name x ≡ Ordering.eq → add name (x ∷ xs) ≡ x ∷ xs
unfolding add
add_eq name x xs e = rw (add, e) refl

add_gt :
    (name x : String) (xs : List String)
    → compare name x ≡ Ordering.gt
    → add name (x ∷ xs) ≡ x ∷ add name xs
unfolding add
add_gt name x xs e = rw (add, e) refl

has-add : (n name : String) (xs : List String) → has n (add name xs) ≡ (n == name) || has n xs
unfolding add
has-add n name [] = refl
has-add n name (x ∷ xs) = elim (Ordering-cases (compare name x)) [
  | inl below ↦ ap (has n) (add_lt name x xs below)
  | inr (inl same) ↦
      ap (has n) (add_eq name x xs same) ∙ rw (path_by_compare name x same) (ground arith)
  | inr (inr above) ↦ ap (has n) (add_gt name x xs above) ∙ ground (arith, has-add n name xs)
]

has-set_of : (n : String) (xs : List String) → has n (set_of xs) ≡ has n xs
unfolding set_of
has-set_of n [] = refl
has-set_of n (x ∷ xs) = has-add n x (set_of xs) ∙ ap (λ b. (n == x) || b) (has-set_of n xs)

IsBelow-trans :
    (x y : String) (ys : List String) → compare x y ≡ Ordering.lt → IsBelow y ys → IsBelow x ys
IsBelow-trans x y [] h below = tt
IsBelow-trans x y (z ∷ ys) h (first, below) =
    (compare-lt_trans x y z h first, IsBelow-trans x y ys h below)

add-IsBelow :
    (x name : String) (xs : List String)
    → compare x name ≡ Ordering.lt
    → IsBelow x xs
    → IsBelow x (add name xs)
unfolding add
add-IsBelow x name [] h below = (h, tt)
add-IsBelow x name (y ∷ xs) h (first, below) = elim (Ordering-cases (compare name y)) [
  | inl less ↦ rw (add_lt name y xs less) (h, (first, below))
  | inr (inl same) ↦ rw (add_eq name y xs same) (first, below)
  | inr (inr more) ↦ rw (add_gt name y xs more) (first, add-IsBelow x name xs h below)
]

add-IsSorted : (name : String) (xs : List String) → IsSorted xs → IsSorted (add name xs)
unfolding add
add-IsSorted name [] h = (tt, tt)
add-IsSorted name (y ∷ xs) (below, sorted) = elim (Ordering-cases (compare name y)) [
  | inl less ↦
      rw (add_lt name y xs less) ((less, IsBelow-trans name y xs less below), (below, sorted))
  | inr (inl same) ↦ rw (add_eq name y xs same) (below, sorted)
  | inr (inr more) ↦
      rw (add_gt name y xs more)
        (add-IsBelow y name xs (compare-gt name y more) below, add-IsSorted name xs sorted)
]

pub set_of-IsSorted : (xs : List String) → IsSorted (set_of xs)
unfolding set_of
set_of-IsSorted [] = tt
set_of-IsSorted (x ∷ xs) = add-IsSorted x (set_of xs) (set_of-IsSorted xs)

apart_of_lt : (x y : String) → compare x y ≡ Ordering.lt → (x == y) ≡ false
apart_of_lt x y h = elim (Bool-cases (x == y)) [
  | inr apart ↦ apart
  | inl same ↦
      let equal : x ≡ y = (eq_iff x y).0 same in
      absurd (ground (arith, sym (compare_refl y) ∙ (rw equal at h)))
]

-- what is below a list is not in it
has_of_IsBelow : (x : String) (xs : List String) → IsBelow x xs → has x xs ≡ false
has_of_IsBelow x [] h = refl
has_of_IsBelow x (y ∷ xs) (first, below) =
    ground (arith, apart_of_lt x y first, has_of_IsBelow x xs below)

-- The first of two sorted lists with the same members is not below the first of the other.
head_not-below :
    (x y : String) (xs ys : List String)
    → IsBelow y ys
    → SameMembers (x ∷ xs) (y ∷ ys)
    → compare x y ≢ Ordering.lt
head_not-below x y xs ys by h less =
    let absent = has_of_IsBelow x ys (IsBelow-trans x y ys less by) in
    absurd (ground (arith, h x, eq_refl x, apart_of_lt x y less))

tails_same :
    (x : String) (xs ys : List String)
    → IsBelow x xs
    → IsBelow x ys
    → SameMembers (x ∷ xs) (x ∷ ys)
    → SameMembers xs ys
tails_same x xs ys bx by h n = elim (Bool-cases (n == x)) [
  | inr apart ↦ ground (arith, h n)
  | inl same ↦ rw ((eq_iff n x).0 same) (has_of_IsBelow x xs bx ∙ sym (has_of_IsBelow x ys by))
]

IsSorted-ext : (xs ys : List String) → IsSorted xs → IsSorted ys → SameMembers xs ys → xs ≡ ys
IsSorted-ext [] [] s t h = refl
IsSorted-ext [] (y ∷ ys) s t h = absurd (ground (arith, h y, eq_refl y))
IsSorted-ext (x ∷ xs) [] s t h = absurd (ground (arith, h x, eq_refl x))
IsSorted-ext (x ∷ xs) (y ∷ ys) (bx, s) (by, t) h = elim (Ordering-cases (compare x y)) [
  | inl less ↦ absurd (head_not-below x y xs ys by h less)
  | inr (inr more) ↦ absurd (head_not-below y x ys xs bx (λ n. sym (h n)) (compare-gt x y more))
  | inr (inl same) ↦
      let equal : x ≡ y = path_by_compare x y same in
      ap (λ z. z ∷ xs) equal
      ∙ ap (λ l. y ∷ l)
          (IsSorted-ext xs ys s t (tails_same y xs ys (rw equal at bx) by (rw equal at h)))
]

-- Two lists with the same members are collected to the same set.
pub set_of-SameMembers : (xs ys : List String) → SameMembers xs ys → set_of xs ≡ set_of ys
set_of-SameMembers xs ys h =
    IsSorted-ext (set_of xs) (set_of ys) (set_of-IsSorted xs) (set_of-IsSorted ys)
      (λ n. has-set_of n xs ∙ h n ∙ sym (has-set_of n ys))
