-- ===== src/Flags/Listing.antt =====
-- src/flags.rs: what the help text holds.
use Prim.Native.String.{◌++◌}
use text.Mathlib.TextLemmas.{append_assoc, nil-append}
use act_web_server_rs.Common.{
  ◌≡◌, ◌⊎◌, inl, inr, refl, String, Option, some, List, [], ◌∷◌, ok, arith,
}
use act_web_server_rs.Flags.Help.{
  FlagEntry, TomlReader, help_table, help_lines, help_line, long_of, entry_line, usage,
}

-- The table is one of the flags.
abbrev pub Holds : FlagEntry → List (Option FlagEntry) → Type 0
Holds e [] = ⊥
Holds e (x ∷ xs) = (x ≡ some e) ⊎ Holds e xs

-- The text has the part in it.
abbrev pub Contains : String → String → Type 0
Contains text part = (before : String) × (after : String) × (text ≡ before ++ (part ++ after))

Contains-before : (front text part : String) → Contains text part → Contains (front ++ text) part
Contains-before front text part (before, after, e) =
    (front ++ before, after, rw (append_assoc, e) refl)

help_lines-Contains :
    (flags : List (Option FlagEntry)) (e : FlagEntry) (long : String)
    → Holds e flags
    → long_of e ≡ some long
    → Contains (help_lines flags) (help_line e long)
unfolding help_lines
help_lines-Contains [] e long h named = elim h [ ]
help_lines-Contains (x ∷ xs) e long (inl same) named =
    ("", help_lines xs, rw (same, named, nil-append) refl)
help_lines-Contains (x ∷ xs) e long (inr later) named =
    Contains-before (entry_line x) (help_lines xs) (help_line e long)
      (help_lines-Contains xs e long later named)

-- The help has a line for every flag of the contract that has a long name or an alias.
pub help_table-Contains :
    (read : TomlReader) (contract help long : String) (flags : List (Option FlagEntry))
    (e : FlagEntry)
    → help_table read contract ≡ ok help
    → read contract ≡ ok (some flags)
    → Holds e flags
    → long_of e ≡ some long
    → Contains help (help_line e long)
unfolding help_table
help_table-Contains read contract help long flags e shown parsed h named =
    let whole : help ≡ usage ++ help_lines flags = ground arith in
    rw whole (
      Contains-before usage (help_lines flags) (help_line e long)
        (help_lines-Contains flags e long h named))
