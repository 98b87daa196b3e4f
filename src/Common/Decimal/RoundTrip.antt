-- ===== src/Common/Decimal/RoundTrip.antt =====
-- Parsing the print of a number.
use Prim.Native.Nat.{ℕ, zero, suc, ◌+◌, ◌-◌, ◌*◌, ◌/◌, ◌%◌, ◌<◌, ◌≤◌}
use Prim.Native.Char.{Char, code}
use Prim.Native.String.{String}
use mathlib.Core.Bool.{false}
use mathlib.Core.Path.{◌≡◌, refl, ap, sym, ◌∙◌}
use mathlib.Core.Logic.{◌≢◌, inl, inr}
use mathlib.Core.Option.{some}
use native.Mathlib.Omega.{arith}
use act_web_server_rs.Common.Booleans.{ltb, Bool-cases}
use act_web_server_rs.Common.Decimal.{digit, digits, to_string, scan, unsigned, parse_unsigned}
use act_web_server_rs.Common.Decimal.Print.{code-digit, value, value-to_string}
use act_web_server_rs.Common.Text.{any_char, is_whitespace}

-- every character is a decimal digit
abbrev pub AreDigits : String → Type 0
AreDigits String.[] = Unit
AreDigits (String.◌∷◌ c s) = (48 ≤ code c) × (code c ≤ 57) × AreDigits s

digits-AreDigits : (fuel n : ℕ) (rest : String) → AreDigits rest → AreDigits (digits fuel n rest)
unfolding digits
digits-AreDigits zero n rest h = h
digits-AreDigits (suc fuel) n rest h =
    let e : code (digit (n % 10)) ≡ 48 + n % 10 = code-digit (n % 10) (omega arith) in
    let longer : AreDigits (String.◌∷◌ (digit (n % 10)) rest) = (omega arith, omega arith, h) in
    elim (Bool-cases (ltb n 10)) [
      | inl small ↦ rw small longer
      | inr large ↦
          rw large (digits-AreDigits fuel (n / 10) (String.◌∷◌ (digit (n % 10)) rest) longer)
    ]

pub to_string-AreDigits : (n : ℕ) → AreDigits (to_string n)
unfolding to_string
to_string-AreDigits n = digits-AreDigits (suc n) n "" tt

pub any_whitespace_of_digits : (s : String) → AreDigits s → any_char is_whitespace s ≡ false
unfolding any_char is_whitespace
any_whitespace_of_digits String.[] h = refl
any_whitespace_of_digits (String.◌∷◌ c s) (low, high, rest) =
    ground (arith, any_whitespace_of_digits s rest)

scan_character :
    (top m n : ℕ) (c : Char) (rest : String)
    → 48 ≤ code c
    → code c ≤ 57
    → m * 10 + (code c - 48) ≡ n
    → n ≤ top
    → scan top m (String.◌∷◌ c rest) ≡ scan top n rest
unfolding scan
scan_character top m n c rest low high same h = rw same (ground arith)

scan-digit :
    (top n : ℕ) (rest : String)
    → n ≤ top
    → scan top (n / 10) (String.◌∷◌ (digit (n % 10)) rest) ≡ scan top n rest
scan-digit top n rest h =
    let e : code (digit (n % 10)) ≡ 48 + n % 10 = code-digit (n % 10) (omega arith) in
    scan_character top (n / 10) n (digit (n % 10)) rest (omega arith) (omega arith) (omega arith) h

scan-digits :
    (top fuel n : ℕ) (rest : String)
    → n < fuel
    → n ≤ top
    → scan top 0 (digits fuel n rest) ≡ scan top n rest
unfolding digits
scan-digits top zero n rest h l = absurd (omega arith)
scan-digits top (suc fuel) n rest h l = elim (Bool-cases (ltb n 10)) [
  | inl small ↦ let e : n / 10 ≡ 0 = ground arith in rw small (rw e at (scan-digit top n rest l))
  | inr large ↦
      let less : n / 10 < fuel = ground arith in
      rw large (
        scan-digits top fuel (n / 10) (String.◌∷◌ (digit (n % 10)) rest) less (omega arith)
        ∙ scan-digit top n rest l)
]

pub to_string-ne_empty : (n : ℕ) → to_string n ≢ ""
unfolding to_string digits value
to_string-ne_empty n e =
    let nothing : n ≡ 0 = sym (value-to_string n) ∙ ap (value 0) e in
    let printed : to_string 0 ≡ "" = ap to_string (sym nothing) ∙ e in cc

parse_unsigned-scan :
    (top : ℕ) (s : String) → AreDigits s → s ≢ "" → parse_unsigned top s ≡ scan top 0 s
unfolding parse_unsigned unsigned
parse_unsigned-scan top String.[] h ne = absurd (ne refl)
parse_unsigned-scan top (String.◌∷◌ c s) (low, high, rest) ne = ground arith

-- A number in range is parsed back from its print.
pub parse_unsigned-to_string : (top n : ℕ) → n ≤ top → parse_unsigned top (to_string n) ≡ some n
unfolding to_string scan
parse_unsigned-to_string top n h =
    parse_unsigned-scan top (to_string n) (to_string-AreDigits n) (to_string-ne_empty n)
    ∙ scan-digits top (suc n) n "" (omega arith) h
