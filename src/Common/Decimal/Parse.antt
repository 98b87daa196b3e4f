-- ===== src/Common/Decimal/Parse.antt =====
-- The range of a parsed `u16`.
use Prim.Native.Nat.{ℕ, ◌+◌, ◌-◌, ◌*◌, ◌≤◌}
use Prim.Native.Char.{code}
use Prim.Native.String.{String}
use mathlib.Core.Path.{◌≡◌}
use mathlib.Core.Option.{some}
use native.Mathlib.Omega.{arith}
use act_web_server_rs.Common.Decimal.{scan, unsigned, parse_unsigned, parse_u16}

scan-le : (top n : ℕ) (s : String) (r : ℕ) → n ≤ top → scan top n s ≡ some r → r ≤ top
unfolding scan
scan-le top n String.[] r h e = ground arith
scan-le top n (String.◌∷◌ c s) r h e = ground (arith, scan-le top (n * 10 + (code c - 48)) s r)

unsigned-le : (top : ℕ) (s : String) (r : ℕ) → unsigned top s ≡ some r → r ≤ top
unfolding unsigned
unsigned-le top String.[] r e = ground arith
unsigned-le top (String.◌∷◌ c s) r e = scan-le top 0 (String.◌∷◌ c s) r (omega arith) e

-- No text is parsed to a number above 65535.
pub parse_u16-le : (s : String) (r : ℕ) → parse_u16 s ≡ some r → r ≤ 65535
unfolding parse_unsigned
parse_u16-le String.[] r e = ground arith
parse_u16-le (String.◌∷◌ c s) r e =
    ground (arith, unsigned-le 65535 s r, unsigned-le 65535 (String.◌∷◌ c s) r)
