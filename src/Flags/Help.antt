-- ===== src/Flags/Help.antt =====
-- src/flags.rs: `help_table`. The contract is read by the crate `toml`, whose accessors give the
-- fields of `FlagEntry`.
use Prim.Native.String.{◌++◌}
use act_web_server_rs.Common.{
  ℕ, String, Bool, Option, none, some, List, [], ◌∷◌, ◌==◌, ◌||◌, Result, ok, ok_or, if◌then◌else◌,
}
use act_web_server_rs.Common.Outcome.{◌>>=◌, unwrap_or, or_else}
use act_web_server_rs.Flags.{in_context}

-- what the accessors of one table of `flags` give: `as_str` of its keys, the first of its aliases,
-- and its default as it prints
pub record FlagEntry : Type 0 where
  pub long : Option String
  pub first_alias : Option String
  pub short : Option String
  pub value_type : Option String
  pub help : Option String
  pub default : Option String

-- The tables of `flags`, if the contract has them; an entry that is no table is `none`.
abbrev pub TomlReader : Type 0
TomlReader = String → Result String (Option (List (Option FlagEntry)))

abbrev pub package_name : String
package_name = "act_web_server"

abbrev pub package_version : String
package_version = "0.1.0"

-- `{option:<width}`
unfoldable pub pad : ℕ → String → String
pad ℕ.zero s = s
pad (ℕ.suc n) String.[] = String.◌∷◌ " " (pad n String.[])
pad (ℕ.suc n) (String.◌∷◌ c s) = String.◌∷◌ c (pad n s)

abbrev spelled : Option String → String → String
spelled none long = "--" ++ long
spelled (some short) long = "-" ++ (short ++ (", --" ++ long))

abbrev default_note : Option String → String
default_note none = ""
default_note (some value) = " [default: " ++ (value ++ "]")

abbrev is_switch : String → Bool
is_switch value_type = value_type == "bool" || value_type == "boolean"

-- the options of an entry with a long name, `option` in the source
unfoldable pub option_of : FlagEntry → String → String
option_of e long =
    spelled e.short long ++ (if is_switch (unwrap_or e.value_type "string") then "" else " <VALUE>")

-- one line of the table
unfoldable pub help_line : FlagEntry → String → String
unfolding option_of
help_line e long =
    "  "
    ++ (pad 28 (option_of e long)
        ++ (" " ++ (unwrap_or e.help "" ++ (default_note e.default ++ "\n"))))

-- the long name, or the first alias in its place
abbrev pub long_of : FlagEntry → Option String
long_of e = or_else e.long e.first_alias

abbrev line_of : FlagEntry → Option String → String
line_of e none = ""
line_of e (some long) = help_line e long

abbrev pub entry_line : Option FlagEntry → String
entry_line none = ""
entry_line (some e) = line_of e (long_of e)

-- the `for` loop over the flags
unfoldable pub help_lines : List (Option FlagEntry) → String
unfolding help_line
help_lines [] = ""
help_lines (entry ∷ entries) = entry_line entry ++ help_lines entries

abbrev pub usage : String
usage = "Usage: " ++ (package_name ++ " [OPTIONS]\n\nOptions:\n")

-- `help_table`
unfoldable pub help_table : TomlReader → String → Result String String
unfolding help_lines
help_table read contract = do
  tables ← in_context "cannot read flags-2-env help metadata: " (read contract)
  flags ← ok_or tables "flags-2-env contract has no flags table"
  ok (usage ++ help_lines flags)
