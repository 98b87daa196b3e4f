-- ===== src/Common/Text/Laws.antt =====
-- Facts about the texts' operations.
use Prim.Native.Char.{Char, code}
use Prim.Native.String.{String, ◌++◌}
use mathlib.Core.Path.{◌≡◌, refl, ap, sym}
use mathlib.Core.Bool.{true, false}
use mathlib.Core.Logic.{◌↔◌, inl, inr}
use mathlib.Core.Option.{Option, none, some}
use native.Mathlib.Omega.{arith}
use text.Mathlib.TextEquality.{Char-path}
use text.Mathlib.TextLemmas.{nil-append, cons-append, cons-eq-cons, cons-ne-nil}
use act_web_server_rs.Common.Booleans.{Bool-cases}
use act_web_server_rs.Common.Text.{
  same_char, is_whitespace, any_char, is_empty, trim_start, trim_last, trim_end, trim, strip_prefix,
  has_prefix, split_once, cons_first,
}

pub same_char_iff : (c d : Char) → (same_char c d ≡ true) ↔ (c ≡ d)
same_char_iff c d = (λ h. Char-path c d (ground arith), λ e. ground (arith, ap code e))

-- `strip_prefix` takes off exactly the prefix.
pub strip_prefix_iff : (p s t : String) → (strip_prefix p s ≡ some t) ↔ (s ≡ p ++ t)
unfolding strip_prefix
strip_prefix_iff String.[] s t = rw nil-append ((λ h. ground arith), λ e. ap some e)
strip_prefix_iff (String.◌∷◌ c p) String.[] t =
    rw cons-append ((λ h. cc), λ e. absurd (cons-ne-nil c (p ++ t) (sym e)))
strip_prefix_iff (String.◌∷◌ c p) (String.◌∷◌ d s) t =
    rw cons-append (elim (Bool-cases (same_char c d)) [
      | inl same ↦ rw same (
        (λ h. cons-eq-cons.1 (sym ((same_char_iff c d).0 same), (strip_prefix_iff p s t).0 h)),
        (λ e. (strip_prefix_iff p s t).1 (cons-eq-cons.0 e).1),
      )
      | inr differ ↦ rw differ (
        (λ h. cc),
        (λ e.
            let same : same_char c d ≡ true = (same_char_iff c d).1 (sym (cons-eq-cons.0 e).0) in
            cc),
      )
    ])

pub is_empty_iff : (s : String) → (is_empty s ≡ true) ↔ (s ≡ "")
unfolding is_empty
is_empty_iff String.[] = (λ _. refl, λ _. refl)
is_empty_iff (String.◌∷◌ c s) = (λ h. cc, λ e. absurd (cons-ne-nil c s e))

trim_last_of_no_whitespace :
    (c : Char) (s : String) → is_whitespace c ≡ false → trim_last c s ≡ String.◌∷◌ c s
unfolding trim_last
trim_last_of_no_whitespace c String.[] h = rw h
trim_last_of_no_whitespace c (String.◌∷◌ d s) h = refl

trim_end_of_no_whitespace : (s : String) → any_char is_whitespace s ≡ false → trim_end s ≡ s
unfolding any_char trim_end
trim_end_of_no_whitespace String.[] h = refl
trim_end_of_no_whitespace (String.◌∷◌ c s) h =
    rw (trim_end_of_no_whitespace s (ground arith)) (trim_last_of_no_whitespace c s (ground arith))

-- `trim` leaves a text with no white space as it is.
pub trim_of_no_whitespace : (s : String) → any_char is_whitespace s ≡ false → trim s ≡ s
unfolding any_char trim trim_start trim_end
trim_of_no_whitespace String.[] h = refl
trim_of_no_whitespace (String.◌∷◌ c s) h =
    let e : is_whitespace c ≡ false = ground arith in
    rw e (trim_end_of_no_whitespace (String.◌∷◌ c s) h)

-- `starts_with` holds of what begins with the prefix, and of nothing else.
pub has_prefix-append : (p s : String) → has_prefix p (p ++ s) ≡ true
unfolding has_prefix
has_prefix-append String.[] s = refl
has_prefix-append (String.◌∷◌ c p) s =
    rw (cons-append, (same_char_iff c c).1 refl) (has_prefix-append p s)

pub strip_prefix-append : (p s : String) → strip_prefix p (p ++ s) ≡ some s
strip_prefix-append p s = (strip_prefix_iff p (p ++ s) s).1 refl

cons_first-eq-some :
    (c : Char) (o : Option (String × String)) (a b : String)
    → cons_first c o ≡ some (a, b)
    → (a' : String) × (o ≡ some (a', b)) × (a ≡ String.◌∷◌ c a')
cons_first-eq-some c none a b h = cc
cons_first-eq-some c (some (a', b')) a b h = (a', ground arith, ground arith)

-- What `split_once` returns are the texts before and behind the separator.
pub split_once_sound :
    (d : Char) (s a b : String) → split_once d s ≡ some (a, b) → s ≡ a ++ String.◌∷◌ d b
unfolding split_once
split_once_sound d String.[] a b h = cc
split_once_sound d (String.◌∷◌ c s) a b h = elim (Bool-cases (same_char c d)) [
  | inl same ↦
      let ea : a ≡ "" = ground arith in
      let eb : s ≡ b = ground arith in
      rw (ea, nil-append) (cons-eq-cons.1 ((same_char_iff c d).0 same, eb))
  | inr differ ↦
      let (a', e, ea) = cons_first-eq-some c (split_once d s) a b (ground arith) in
      rw (ea, cons-append) (ap (String.◌∷◌ c) (split_once_sound d s a' b e))
]

-- A separator that does not stand before it splits a text there.
pub split_once-append :
    (d : Char) (a b : String)
    → any_char (λ c. same_char c d) a ≡ false
    → split_once d (a ++ String.◌∷◌ d b) ≡ some (a, b)
unfolding split_once any_char
split_once-append d String.[] b h = rw (nil-append, (same_char_iff d d).1 refl)
split_once-append d (String.◌∷◌ c a) b h =
    let e : same_char c d ≡ false = ground arith in
    rw (cons-append, split_once, e) (rw (split_once-append d a b (ground arith)) refl)
