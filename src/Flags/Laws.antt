-- ===== src/Flags/Laws.antt =====
-- src/flags.rs: which source decides a setting, and what an error may show.
use Prim.Native.Char.{Char}
use Prim.Native.String.{◌++◌}
use text.Mathlib.TextLemmas.{nil-append, cons-append}
use act_web_server_rs.Common.{
  ◌≡◌, ◌∙◌, refl, ap, String, Option, none, some, List, [], ◌∷◌, Result, ok, err, arith, ◌==◌,
  if◌then◌else◌, Result-cases, inl, inr,
}
use act_web_server_rs.Common.Json.{Value}
use act_web_server_rs.Common.Maps.{
  Map, get, insert, extend, last_of, later_or, get-insert, get-extend,
}
use act_web_server_rs.Common.Text.{split_head, strip_prefix}
use act_web_server_rs.Common.Text.Laws.{strip_prefix_iff, same_char_iff}
use act_web_server_rs.Flags.{
  FlagParser, Parsed, option_name, text_of, insert_typed, raw_of, refuse, resolve_from, materialize,
}

split_head-append :
    (d : Char) (name value : String) → split_head d (name ++ String.◌∷◌ d value) ≡ split_head d name
unfolding split_head
split_head-append d String.[] value = rw nil-append (ground (arith, same_char_iff d d))
split_head-append d (String.◌∷◌ c name) value =
    rw cons-append (ground (arith, split_head-append d name value))

-- An unknown option is named up to its first `=`: the name that an error shows is the same for every
-- value behind it, so no value of a `--name=value` is shown.
pub option_name_lem :
    (name value : String)
    → option_name ("--" ++ (name ++ ("=" ++ value))) ≡ "--" ++ split_head "=" name
unfolding option_name
option_name_lem name value =
    let found : strip_prefix "--" ("--" ++ (name ++ ("=" ++ value)))
        ≡ some (name ++ ("=" ++ value)) =
      (strip_prefix_iff "--" ("--" ++ (name ++ ("=" ++ value))) (name ++ ("=" ++ value))).1 refl in
    let same : "=" ++ value ≡ String.◌∷◌ "=" value = rw (cons-append, nil-append) refl in
    rw (found, same) (ap (λ x. "--" ++ x) (split_head-append "=" name value))

-- the text of the last entry for the name that is not null
abbrev pub last_text : String → Map Value → Option String
last_text j [] = none
last_text j ((name, value) ∷ typed) =
    later_or (last_text j typed) (if j == name then text_or_none (text_of name value) else none)
  where
    text_or_none : Result String (Option String) → Option String
    text_or_none (ok text) = text
    text_or_none (err _) = none

get-insert_typed :
    (j : String) (resolved m : Map String) (typed : Map Value)
    → insert_typed resolved typed ≡ ok m
    → get j m ≡ later_or (last_text j typed) (get j resolved)
unfolding insert_typed
get-insert_typed j resolved m [] e = ground arith
get-insert_typed j resolved m ((name, value) ∷ typed) e = elim (Result-cases (text_of name value)) [
  | inr (_, refused) ↦ absurd (ground arith)
  | inl (none, read) ↦ ground (arith, get-insert_typed j resolved m typed)
  | inl (some text, read) ↦ ground (
    arith,
    get-insert_typed j (insert name text resolved) m typed,
    get-insert j name text resolved,
  )
]

refuse_sound :
    (parsed : Parsed)
    → refuse parsed ≡ ok tt
    → (parsed.unknown_options ≡ []) × (parsed.errors ≡ []) × (parsed.extras ≡ [])
unfolding refuse
refuse_sound parsed e = ground arith

get-environment :
    (j : String) (variables : List (String × String))
    → get j (extend [] variables) ≡ last_of j variables
unfolding get
get-environment j variables = ground (arith, get-extend {A = String} j [] variables)

module _ (f : FlagParser) (contract : String) where
  -- A configuration is returned only from a command line with no unknown option, no invalid value and
  -- no positional argument. What it says of a name is the last typed value for it that is not null,
  -- as a text, and without one the environment's value.
  pub resolve_from_sound :
      (argv : List String) (variables : List (String × String)) (m : Map String)
      → resolve_from f contract argv variables ≡ ok m
      → (path : String) × (parsed : Parsed) × (typed : Map Value) × (materialize f contract
          ≡ ok path)
        × (f.audit_config path ≡ ok tt)
        × (f.parse_structured argv path ≡ ok parsed)
        × (parsed.unknown_options ≡ [])
        × (parsed.errors ≡ [])
        × (parsed.extras ≡ [])
        × (f.coerce (raw_of parsed (extend [] variables)) path ≡ ok typed)
        × ((j : String) → get j m ≡ later_or (last_text j typed) (last_of j variables))
  unfolding resolve_from
  resolve_from_sound argv variables m e = elim (Result-cases (materialize f contract)) [
    | inr (_, refused) ↦ absurd (ground arith)
    | inl (path, made) ↦ elim (Result-cases (f.audit_config path)) [
      | inr (_, refused) ↦ absurd (ground arith)
      | inl (_, audited) ↦ elim (Result-cases (f.parse_structured argv path)) [
        | inr (_, refused) ↦ absurd (ground arith)
        | inl (parsed, read) ↦ elim (Result-cases (refuse parsed)) [
          | inr (_, refused) ↦ absurd (ground arith)
          | inl (_, clean) ↦
              let raw = raw_of parsed (extend [] variables) in
              elim (Result-cases (f.coerce raw path)) [
                | inr (_, refused) ↦ absurd (ground arith)
                | inl (typed, coerced) ↦
                    let (options, errors, extras) = refuse_sound parsed clean in
                    (
                      path,
                      parsed,
                      typed,
                      made,
                      audited,
                      read,
                      options,
                      errors,
                      extras,
                      coerced,
                      λ j.
                          get-insert_typed j (extend [] variables) m typed (ground arith)
                          ∙ ap (later_or (last_text j typed)) (get-environment j variables),
                    )
              ]
        ]
      ]
    ]
  ]
