-- ===== src/Flags/Refusal.antt =====
-- src/flags.rs: the error for unknown options.
use Prim.Native.String.{◌++◌}
use text.Mathlib.TextPositions.{eq_refl}
use act_web_server_rs.Common.{
  ◌≡◌, ◌≢◌, ◌∙◌, sym, refl, ap, String, List, [], ◌∷◌, ok, err, arith, map, inl, inr, Result-cases,
  true,
}
use act_web_server_rs.Common.Maps.{set_of}
use act_web_server_rs.Common.Maps.Same.{has, SameMembers, set_of-SameMembers}
use act_web_server_rs.Flags.Laws.{option_name_lem}
use act_web_server_rs.Flags.{
  FlagParser, Parsed, option_name, refuse, resolve_from, materialize, nonempty, join,
}

-- The names that an error shows are the same.
abbrev pub SameNames : List String → List String → Type 0
SameNames xs ys = SameMembers (map option_name xs) (map option_name ys)

nonempty_of_ne_empty : (xs : List String) → xs ≢ [] → nonempty xs ≡ true
nonempty_of_ne_empty [] ne = absurd (ne refl)
nonempty_of_ne_empty (x ∷ xs) ne = refl

refuse_unknown :
    (parsed : Parsed)
    → parsed.unknown_options ≢ []
    → refuse parsed
      ≡ err (
          "unknown command-line option(s): "
          ++ join (set_of (map option_name parsed.unknown_options)))
unfolding refuse
refuse_unknown parsed some_ = rw (nonempty_of_ne_empty parsed.unknown_options some_) refl

SameNames-ne_empty : (xs ys : List String) → SameNames xs ys → xs ≢ [] → ys ≢ []
SameNames-ne_empty [] ys h ne = absurd (ne refl)
SameNames-ne_empty (x ∷ xs) [] h ne =
    absurd (ground (arith, h (option_name x), eq_refl (option_name x)))
SameNames-ne_empty (x ∷ xs) (y ∷ ys) h ne = λ e. cc

refuse-SameNames :
    (a b : Parsed)
    → a.unknown_options ≢ []
    → SameNames a.unknown_options b.unknown_options
    → refuse a ≡ refuse b
refuse-SameNames a b some_ h =
    refuse_unknown a some_
    ∙ ap (λ names. err ("unknown command-line option(s): " ++ join names))
        (set_of-SameMembers (map option_name a.unknown_options) (map option_name b.unknown_options)
          h)
    ∙ sym (refuse_unknown b (SameNames-ne_empty a.unknown_options b.unknown_options h some_))

-- `--name=value`
abbrev pub option_with : String → String → String
option_with name value = "--" ++ (name ++ ("=" ++ value))

abbrev pub with_first : String × String × String → String
with_first (name, value, value') = option_with name value

abbrev pub with_second : String × String × String → String
with_second (name, value, value') = option_with name value'

names_of_options :
    (options : List (String × String × String))
    → map option_name (map with_first options) ≡ map option_name (map with_second options)
names_of_options [] = refl
names_of_options ((name, value, value') ∷ options) =
    let head = option_name_lem name value ∙ sym (option_name_lem name value') in
    ap (λ n. n ∷ map option_name (map with_first options)) head
    ∙ ap (λ ns. option_name (option_with name value') ∷ ns) (names_of_options options)

module _ (f : FlagParser) (contract : String) where
  -- Two command lines with unknown options of the same names are refused with the same error, whatever
  -- the order of the options, how often each stands there, what value is behind it, and whatever else
  -- is on the command line or in the environment.
  pub resolve_from-SameNames :
      (argv argv' : List String) (variables variables' : List (String × String)) (path : String)
      (a b : Parsed)
      → materialize f contract ≡ ok path
      → f.parse_structured argv path ≡ ok a
      → f.parse_structured argv' path ≡ ok b
      → a.unknown_options ≢ []
      → SameNames a.unknown_options b.unknown_options
      → resolve_from f contract argv variables ≡ resolve_from f contract argv' variables'
  unfolding resolve_from
  resolve_from-SameNames argv argv' variables variables' path a b made read read' some_ h =
      let same = refuse-SameNames a b some_ h in
      let shown = refuse_unknown a some_ in
      elim (Result-cases (f.audit_config path)) [
        | inl (_, audited) ↦ ground arith
        | inr (e, refused) ↦ ground arith
      ]

  -- The error for unknown options shows no value: two command lines whose unknown options are the same
  -- names with other values, `--name=value` and `--name=value'`, are refused with the same error.
  pub resolve_from_hides_values :
      (argv argv' : List String) (variables : List (String × String)) (path : String) (a b : Parsed)
      (options : List (String × String × String))
      → materialize f contract ≡ ok path
      → f.parse_structured argv path ≡ ok a
      → f.parse_structured argv' path ≡ ok b
      → options ≢ []
      → a.unknown_options ≡ map with_first options
      → b.unknown_options ≡ map with_second options
      → resolve_from f contract argv variables ≡ resolve_from f contract argv' variables
  resolve_from_hides_values argv argv' variables path a b [] made read read' some_ x y =
      absurd (some_ refl)
  resolve_from_hides_values argv argv' variables path a b (o ∷ options) made read read' some_ x y =
      resolve_from-SameNames argv argv' variables variables path a b made read read'
        (λ e. let none_ : with_first o ∷ map with_first options ≡ [] = sym x ∙ e in cc)
        (λ name.
          ap (λ xs. has name (map option_name xs)) x
          ∙ ap (has name) (names_of_options (o ∷ options))
          ∙ sym (ap (λ xs. has name (map option_name xs)) y))
