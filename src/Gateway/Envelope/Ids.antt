-- ===== src/Gateway/Envelope/Ids.antt =====
-- src/data_plane.rs: what an operation id says of its time and number.
use Prim.Native.Char.{Char, code}
use Prim.Native.String.{◌++◌}
use text.Mathlib.TextLemmas.{nil-append, cons-append, cons-eq-cons, append_cancel_left}
use act_web_server_rs.Common.{ℕ, String, ◌≡◌, refl, sym, ap, ◌∙◌, arith}
use mathlib.Core.Path.{ap₂}
use act_web_server_rs.Common.Decimal.{to_string}
use act_web_server_rs.Common.Decimal.Print.{Lacks, to_string-Lacks, to_string_injective}
use act_web_server_rs.Gateway.Envelope.{operation_id_of}

-- A separator that stands in neither head splits a text in one way.
split_unique :
    (d : Char) (a a' b b' : String)
    → Lacks (code d) a
    → Lacks (code d) a'
    → a ++ String.◌∷◌ d b ≡ a' ++ String.◌∷◌ d b'
    → (a ≡ a') × (b ≡ b')
split_unique d String.[] String.[] b b' l l' e =
    (refl, (cons-eq-cons.0 (sym (nil-append _) ∙ e ∙ nil-append _)).1)
split_unique d String.[] (String.◌∷◌ c a') b b' l l' e =
    absurd (l'.0 (ap code (sym (cons-eq-cons.0 (sym (nil-append _) ∙ e ∙ cons-append c a' _)).0)))
split_unique d (String.◌∷◌ c a) String.[] b b' l l' e =
    absurd (l.0 (ap code (cons-eq-cons.0 (sym (cons-append c a _) ∙ e ∙ nil-append _)).0))
split_unique d (String.◌∷◌ c a) (String.◌∷◌ c' a') b b' l l' e =
    let (same, rest) = cons-eq-cons.0 (sym (cons-append c a _) ∙ e ∙ cons-append c' a' _) in
    let (ea, eb) = split_unique d a a' b b' l.1 l'.1 rest in (ap₂ String.◌∷◌ same ea, eb)

dashed : (b : String) → "-" ++ b ≡ String.◌∷◌ "-" b
dashed b = cons-append "-" "" b ∙ ap (String.◌∷◌ "-") (nil-append b)

-- Two operations have one id only if they were made in the same millisecond with the same sequence
-- number.
pub operation_id_of_injective :
    (now now' sequence sequence' : ℕ)
    → operation_id_of now sequence ≡ operation_id_of now' sequence'
    → (now ≡ now') × (sequence ≡ sequence')
unfolding operation_id_of
operation_id_of_injective now now' sequence sequence' e =
    let tail : to_string now ++ ("-" ++ to_string sequence)
        ≡ to_string now' ++ ("-" ++ to_string sequence') =
      append_cancel_left "web-" _ _ e in
    let (a, b) =
      split_unique "-" (to_string now) (to_string now') _ _ (to_string-Lacks 45 now (omega arith))
        (to_string-Lacks 45 now' (omega arith))
        (rw (dashed (to_string sequence), dashed (to_string sequence')) at tail) in
    (to_string_injective now now' a, to_string_injective sequence sequence' b)
