-- ===== src/Common/Decimal/Print.antt =====
-- Reading the print of a number back, and its characters.
use Prim.Native.Nat.{ℕ, zero, suc, ◌+◌, ◌-◌, ◌*◌, ◌/◌, ◌%◌, ◌<◌}
use Prim.Native.Char.{code}
use Prim.Native.String.{String}
use mathlib.Core.Path.{◌≡◌, refl, ap, sym, ◌∙◌}
use mathlib.Core.Logic.{◌≢◌, inl, inr}
use native.Mathlib.Omega.{arith}
use act_web_server_rs.Common.Booleans.{ltb, Bool-cases}
use act_web_server_rs.Common.Decimal.{digit, digits, to_string}

pub code-digit : (n : ℕ) → n < 10 → code (digit n) ≡ 48 + n
unfolding digit
code-digit zero h = refl
code-digit (suc zero) h = refl
code-digit (suc (suc zero)) h = refl
code-digit (suc (suc (suc zero))) h = refl
code-digit (suc (suc (suc (suc zero)))) h = refl
code-digit (suc (suc (suc (suc (suc zero))))) h = refl
code-digit (suc (suc (suc (suc (suc (suc zero)))))) h = refl
code-digit (suc (suc (suc (suc (suc (suc (suc zero))))))) h = refl
code-digit (suc (suc (suc (suc (suc (suc (suc (suc zero)))))))) h = refl
code-digit (suc (suc (suc (suc (suc (suc (suc (suc (suc zero))))))))) h = refl
code-digit (suc (suc (suc (suc (suc (suc (suc (suc (suc (suc _)))))))))) h = absurd (omega arith)

-- the number that the digits of a text spell behind `n`
unfoldable pub value : ℕ → String → ℕ
value n String.[] = n
value n (String.◌∷◌ c s) = value (n * 10 + (code c - 48)) s

-- one digit behind the others
value_last :
    (n : ℕ) (rest : String) → value (n / 10) (String.◌∷◌ (digit (n % 10)) rest) ≡ value n rest
unfolding value
value_last n rest =
    ap (λ (m : ℕ). value m rest)
      (let e : code (digit (n % 10)) ≡ 48 + n % 10 = code-digit (n % 10) (omega arith) in
        omega arith)

value-digits : (fuel n : ℕ) (rest : String) → n < fuel → value 0 (digits fuel n rest) ≡ value n rest
unfolding digits
value-digits zero n rest h = absurd (omega arith)
value-digits (suc fuel) n rest h = elim (Bool-cases (ltb n 10)) [
  | inl small ↦ let e : n / 10 ≡ 0 = ground arith in rw (small) (rw e at (value_last n rest))
  | inr large ↦
      let e : n / 10 < fuel = ground arith in
      rw (large)
        (value-digits fuel (n / 10) (String.◌∷◌ (digit (n % 10)) rest) e ∙ value_last n rest)
]

-- What is printed spells the number.
pub value-to_string : (n : ℕ) → value 0 (to_string n) ≡ n
unfolding to_string value
value-to_string n = value-digits (suc n) n "" (omega arith)

-- Two numbers with one print are equal.
pub to_string_injective : (m n : ℕ) → to_string m ≡ to_string n → m ≡ n
to_string_injective m n e = sym (value-to_string m) ∙ ap (value 0) e ∙ value-to_string n

-- every character has a code other than `k`
abbrev pub Lacks : ℕ → String → Type 0
Lacks k String.[] = Unit
Lacks k (String.◌∷◌ c s) = (code c ≢ k) × Lacks k s

digits-Lacks : (k fuel n : ℕ) (rest : String) → k < 48 → Lacks k rest → Lacks k (digits fuel n rest)
unfolding digits
digits-Lacks k zero n rest h l = l
digits-Lacks k (suc fuel) n rest h l =
    let e : code (digit (n % 10)) ≡ 48 + n % 10 = code-digit (n % 10) (omega arith) in
    let l' : Lacks k (String.◌∷◌ (digit (n % 10)) rest) = ((λ p. omega arith), l) in
    elim (Bool-cases (ltb n 10)) [
      | inl small ↦ rw small l'
      | inr large ↦ rw large (digits-Lacks k fuel (n / 10) (String.◌∷◌ (digit (n % 10)) rest) h l')
    ]

-- A print holds no character below the digits, such as a dash.
pub to_string-Lacks : (k n : ℕ) → k < 48 → Lacks k (to_string n)
unfolding to_string
to_string-Lacks k n h = digits-Lacks k (suc n) n "" h tt
