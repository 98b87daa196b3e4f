-- ===== src/Common/Decimal.antt =====
-- The decimal print of an unsigned integer, `u64::to_string`, and `str::parse::<u16>`.
pub mod Print
pub mod Parse
pub mod RoundTrip
use Prim.Native.Nat.{ℕ, zero, suc, ◌+◌, ◌-◌, ◌*◌, ◌/◌, ◌%◌, ◌<◌}
use Prim.Native.Char.{Char, code}
use Prim.Native.String.{String}
use mathlib.Core.Bool.{Bool, ◌&&◌}
use mathlib.Core.Option.{Option, none, some}
use act_web_server_rs.Common.Booleans.{ltb, leb, if◌then◌else◌}
use act_web_server_rs.Common.Text.{between}

-- the character of a digit
unfoldable pub digit : ℕ → Char
digit zero = "0"
digit (suc zero) = "1"
digit (suc (suc zero)) = "2"
digit (suc (suc (suc zero))) = "3"
digit (suc (suc (suc (suc zero)))) = "4"
digit (suc (suc (suc (suc (suc zero))))) = "5"
digit (suc (suc (suc (suc (suc (suc zero)))))) = "6"
digit (suc (suc (suc (suc (suc (suc (suc zero))))))) = "7"
digit (suc (suc (suc (suc (suc (suc (suc (suc zero)))))))) = "8"
digit (suc (suc (suc (suc (suc (suc (suc (suc (suc _))))))))) = "9"

-- The digits of `n` in front of `rest`; `suc n` rounds are enough, since a round divides by ten.
unfoldable pub digits : ℕ → ℕ → String → String
digits zero n rest = rest
digits (suc fuel) n rest =
    let longer = String.◌∷◌ (digit (n % 10)) rest in
    let more = digits fuel (n / 10) longer in if ltb n 10 then longer else more

unfoldable pub to_string : ℕ → String
unfolding digits digit
to_string n = digits (suc n) n ""

-- The digits of an integer type, with the overflow of its largest value refused.
unfoldable pub scan : ℕ → ℕ → String → Option ℕ
scan top n String.[] = some n
scan top n (String.◌∷◌ c s) =
    let m = n * 10 + (code c - 48) in
    if between 48 57 (code c) && leb m top then scan top m s else none

-- `str::parse` of an unsigned type with the largest value `top`: one `+` may stand in front, and a
-- digit has to follow.
unfoldable pub unsigned : ℕ → String → Option ℕ
unsigned top String.[] = none
unsigned top (String.◌∷◌ c s) = scan top 0 (String.◌∷◌ c s)

unfoldable pub parse_unsigned : ℕ → String → Option ℕ
unfolding unsigned scan
parse_unsigned top String.[] = none
parse_unsigned top (String.◌∷◌ c s) =
    if between 43 43 (code c) then unsigned top s else unsigned top (String.◌∷◌ c s)

abbrev pub parse_u16 : String → Option ℕ
parse_u16 = parse_unsigned 65535
