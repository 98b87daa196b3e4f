-- ===== src/Common/Text.antt =====
-- What the server uses of Rust's `str` and `char`. A `String` is a list of characters, `len` counts
-- its bytes in UTF-8.
pub mod Laws
use Prim.Native.Nat.{ℕ, ◌-◌, ◌+◌}
use Prim.Native.Char.{Char, code}
use Prim.Native.String.{String}
use mathlib.Core.Bool.{Bool, true, false, ◌&&◌, ◌||◌}
use mathlib.Core.Option.{Option, none, some}
use text.Mathlib.Text.{◌==◌}
use act_web_server_rs.Common.Booleans.{leb, if◌then◌else◌}

abbrev pub between : ℕ → ℕ → ℕ → Bool
between lo hi n = leb lo n && leb n hi

-- `char::is_whitespace`: the Unicode property `White_Space`
unfoldable pub is_whitespace : Char → Bool
is_whitespace c =
    let n = code c in
    between 9 13 n
    || between 32 32 n
    || between 0x85 0x85 n
    || between 0xa0 0xa0 n
    || between 0x1680 0x1680 n
    || between 0x2000 0x200a n
    || between 0x2028 0x2029 n
    || between 0x202f 0x202f n
    || between 0x205f 0x205f n
    || between 0x3000 0x3000 n

-- `char::is_control`: the general category `Cc`
unfoldable pub is_control : Char → Bool
is_control c = let n = code c in between 0 0x1f n || between 0x7f 0x9f n

-- `s.chars().any(p)`
unfoldable pub any_char : (Char → Bool) → String → Bool
any_char p String.[] = false
any_char p (String.◌∷◌ c s) = p c || any_char p s

unfoldable pub is_empty : String → Bool
is_empty String.[] = true
is_empty (String.◌∷◌ _ _) = false

-- `s.trim_start()`
unfoldable pub trim_start : String → String
trim_start String.[] = String.[]
trim_start (String.◌∷◌ c s) = if is_whitespace c then trim_start s else String.◌∷◌ c s

-- `s.trim_end()`: a character is dropped if it is white space and nothing is kept behind it.
unfoldable pub trim_last : Char → String → String
trim_last c String.[] = if is_whitespace c then String.[] else String.◌∷◌ c String.[]
trim_last c (String.◌∷◌ d s) = String.◌∷◌ c (String.◌∷◌ d s)

unfoldable pub trim_end : String → String
unfolding trim_last
trim_end String.[] = String.[]
trim_end (String.◌∷◌ c s) = trim_last c (trim_end s)

-- `s.trim()`
unfoldable pub trim : String → String
trim s = trim_end (trim_start s)

-- the character test of two texts, on code points
abbrev pub same_char : Char → Char → Bool
same_char c d = leb (code c) (code d) && leb (code d) (code c)

-- `s.strip_prefix(p)`; the prefix comes first
unfoldable pub strip_prefix : String → String → Option String
strip_prefix String.[] s = some s
strip_prefix (String.◌∷◌ _ _) String.[] = none
strip_prefix (String.◌∷◌ c p) (String.◌∷◌ d s) = if same_char c d then strip_prefix p s else none

-- `s.starts_with(p)`; the prefix comes first
unfoldable pub has_prefix : String → String → Bool
has_prefix String.[] s = true
has_prefix (String.◌∷◌ _ _) String.[] = false
has_prefix (String.◌∷◌ c p) (String.◌∷◌ d s) = same_char c d && has_prefix p s

-- `s.ends_with(p)`; the suffix comes first
unfoldable pub has_suffix : String → String → Bool
has_suffix p String.[] = p == ""
has_suffix p (String.◌∷◌ c s) = p == String.◌∷◌ c s || has_suffix p s

abbrev cons_first : Char → Option (String × String) → Option (String × String)
cons_first c none = none
cons_first c (some (before, behind)) = some (String.◌∷◌ c before, behind)

-- `s.split_once(d)`: the texts before and behind the first `d`
unfoldable pub split_once : Char → String → Option (String × String)
split_once d String.[] = none
split_once d (String.◌∷◌ c s) =
    if same_char c d then some ("", s) else cons_first c (split_once d s)

-- a code point in lower case, if it is an ASCII letter
abbrev lower : ℕ → ℕ
lower n = if between 65 90 n then n + 32 else n

-- `s.eq_ignore_ascii_case(t)`
unfoldable pub eq_ignore_ascii_case : String → String → Bool
eq_ignore_ascii_case String.[] String.[] = true
eq_ignore_ascii_case String.[] (String.◌∷◌ _ _) = false
eq_ignore_ascii_case (String.◌∷◌ _ _) String.[] = false
eq_ignore_ascii_case (String.◌∷◌ c s) (String.◌∷◌ d t) =
    leb (lower (code c)) (lower (code d))
    && leb (lower (code d)) (lower (code c))
    && eq_ignore_ascii_case s t

-- `s.chars().take(n).collect()`
unfoldable pub take_chars : ℕ → String → String
take_chars ℕ.zero s = ""
take_chars (ℕ.suc n) String.[] = ""
take_chars (ℕ.suc n) (String.◌∷◌ c s) = String.◌∷◌ c (take_chars n s)

-- `s.split(d).next()`: the text before the first `d`, all of it if there is none
unfoldable pub split_head : Char → String → String
split_head d String.[] = ""
split_head d (String.◌∷◌ c s) = if same_char c d then "" else String.◌∷◌ c (split_head d s)
