-- ===== src/Config/Port.antt =====
-- src/config.rs: `PORT` as a deployment writes it.
use Prim.Native.String.{String}
use mathlib.Core.Logic.{◌≢◌}
use act_web_server_rs.Common.{refl, ℕ, ◌≤◌, ◌≡◌, false, some, ok}
use act_web_server_rs.Common.Decimal.{to_string}
use act_web_server_rs.Common.Decimal.RoundTrip.{
  to_string-AreDigits, any_whitespace_of_digits, to_string-ne_empty, parse_unsigned-to_string,
}
use act_web_server_rs.Common.Text.{is_empty, trim}
use act_web_server_rs.Common.Text.Laws.{trim_of_no_whitespace}
use act_web_server_rs.Config.{Env, non_empty, env_non_empty, parse_port}

is_empty_of_ne_empty : (s : String) → s ≢ "" → is_empty s ≡ false
unfolding is_empty
is_empty_of_ne_empty String.[] ne = absurd (ne refl)
is_empty_of_ne_empty (String.◌∷◌ c s) ne = refl

non_empty-to_string : (n : ℕ) → non_empty (some (to_string n)) ≡ some (to_string n)
unfolding non_empty
non_empty-to_string n =
    let same : trim (to_string n) ≡ to_string n =
      trim_of_no_whitespace (to_string n)
        (any_whitespace_of_digits (to_string n) (to_string-AreDigits n)) in
    rw (same, is_empty_of_ne_empty (to_string n) (to_string-ne_empty n)) refl

-- A port number that is written to the variable `name` in decimal is the port that is read from it,
-- whatever the default.
pub parse_port-to_string :
    (env : Env) (name : String) (n default : ℕ)
    → n ≤ 65535
    → env name ≡ some (to_string n)
    → parse_port (env_non_empty env name) default name ≡ ok n
unfolding env_non_empty parse_port
parse_port-to_string env name n default h e =
    rw (e, non_empty-to_string n, parse_unsigned-to_string 65535 n h) refl
