-- ===== src/Common/Maps/Order.antt =====
-- The order of texts, by the numbers of their characters.
use Prim.Native.Nat.{Ordering}
use Prim.Native.String.{String, compare}
use Prim.Native.String.compare
use mathlib.Core.Path.{◌≡◌, sym, ◌∙◌}
use native.Mathlib.Omega.{arith}

pub compare-lt_trans :
    (a b c : String)
    → compare a b ≡ Ordering.lt
    → compare b c ≡ Ordering.lt
    → compare a c ≡ Ordering.lt
compare-lt_trans String.[] String.[] c h k = absurd (ground (arith, compare.nil-nil))
compare-lt_trans String.[] (String.◌∷◌ y b) String.[] h k =
    absurd (ground (arith, compare.cons-nil y b))
compare-lt_trans String.[] (String.◌∷◌ y b) (String.◌∷◌ z c) h k = compare.nil-cons z c
compare-lt_trans (String.◌∷◌ x a) String.[] c h k = absurd (ground (arith, compare.cons-nil x a))
compare-lt_trans (String.◌∷◌ x a) (String.◌∷◌ y b) String.[] h k =
    absurd (ground (arith, compare.cons-nil y b))
compare-lt_trans (String.◌∷◌ x a) (String.◌∷◌ y b) (String.◌∷◌ z c) h k =
    let h' = sym (compare.cons-cons x y a b) ∙ h in
    let k' = sym (compare.cons-cons y z b c) ∙ k in
    compare.cons-cons x z a c ∙ ground (arith, compare-lt_trans a b c)

pub compare-gt : (a b : String) → compare a b ≡ Ordering.gt → compare b a ≡ Ordering.lt
compare-gt String.[] String.[] h = absurd (ground (arith, compare.nil-nil))
compare-gt String.[] (String.◌∷◌ y b) h = absurd (ground (arith, compare.nil-cons y b))
compare-gt (String.◌∷◌ x a) String.[] h = compare.nil-cons x a
compare-gt (String.◌∷◌ x a) (String.◌∷◌ y b) h =
    let h' = sym (compare.cons-cons x y a b) ∙ h in
    compare.cons-cons y x b a ∙ ground (arith, compare-gt a b)
