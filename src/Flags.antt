-- ===== src/Flags.antt =====
-- src/flags.rs: the settings of the process, resolved from the command line and the environment. The
-- crates `flags2env` and `tempfile` are the parameter `FlagParser`; its errors are their texts.
pub mod Laws
pub mod Help
pub mod Control
pub mod Once
pub mod Listing
pub mod Refusal
use Prim.Native.String.{◌++◌}
use act_web_server_rs.Common.{
  String, Bool, true, false, Option, none, some, List, [], ◌∷◌, Result, ok, err, ok_or, fail_if,
  map, length, not, if◌then◌else◌,
}
use act_web_server_rs.Common.Outcome.{◌>>=◌, ◌>>◌}
use act_web_server_rs.Common.Decimal.{to_string}
use act_web_server_rs.Common.Json.{Value, null, bool, number, string, array, object}
use act_web_server_rs.Common.Maps.{Map, get, insert, extend, remove, set_of}
use act_web_server_rs.Common.Text.{strip_prefix, split_head, take_chars}

-- what `parse_structured` returns
pub record Parsed : Type 0 where
  pub unknown_options : List String
  pub errors : List String
  pub extras : List String
  pub dotenv : Map String
  pub dotenv_overrides : Map String
  pub provided_flags : Map String

pub record FlagParser : Type 1 where
  pub File : Type 0
  pub new_file : Result String File
  pub write_all : File → String → Result String File
  pub path : File → Option String
  pub audit_config : String → Result String (Unit {0})
  pub parse_structured : List String → String → Result String Parsed
  pub coerce : Map String → String → Result String (Map Value)

abbrev pub nonempty : List String → Bool
nonempty [] = false
nonempty (_ ∷ _) = true

-- `.map_err(|error| format!("…: {error}"))`
abbrev pub in_context : {A : Type 0} → String → Result String A → Result String A
in_context context (ok a) = ok a
in_context context (err e) = err (context ++ e)

abbrev pub print_bool : Bool → String
print_bool true = "true"
print_bool false = "false"

-- `scalar_string`
unfoldable pub scalar_string : String → Value → Result String String
scalar_string name (string value) = ok value
scalar_string name (bool value) = ok (print_bool value)
scalar_string name (number value) = ok value
scalar_string name null = err ("flags-2-env returned a non-scalar value for " ++ name)
scalar_string name (array _) = err ("flags-2-env returned a non-scalar value for " ++ name)
scalar_string name (object _) = err ("flags-2-env returned a non-scalar value for " ++ name)

abbrev long_name : Option String → String → String
long_name (some long) option = "--" ++ split_head "=" long
long_name none option = take_chars 2 option

-- `option_name`
unfoldable pub option_name : String → String
option_name option = long_name (strip_prefix "--" option) option

-- `names.join(", ")`
abbrev join_after : String → List String → String
join_after first [] = first
join_after first (name ∷ names) = first ++ (", " ++ join_after name names)

abbrev pub join : List String → String
join [] = ""
join (name ∷ names) = join_after name names

-- `if !value.is_null() { … scalar_string(&name, value)? }`
abbrev pub is_null : Value → Bool
is_null null = true
is_null (string _) = false
is_null (bool _) = false
is_null (number _) = false
is_null (array _) = false
is_null (object _) = false

unfoldable pub text_of : String → Value → Result String (Option String)
unfolding scalar_string
text_of name value =
    if is_null value then ok none else (scalar_string name value >>= λ text. ok (some text))

abbrev pub insert_some : String → Option String → Map String → Map String
insert_some name none m = m
insert_some name (some text) m = insert name text m

-- the `for` loop over the typed values
unfoldable pub insert_typed : Map String → Map Value → Result String (Map String)
insert_typed resolved [] = ok resolved
insert_typed resolved ((name, value) ∷ typed) =
    text_of name value >>= λ text. insert_typed (insert_some name text resolved) typed

-- the `raw` map, from the weakest source to the strongest
unfoldable pub raw_of : Parsed → Map String → Map String
raw_of parsed environment =
    extend
      (remove "FLAGS2ENV_COMMAND"
        (extend (extend parsed.dotenv environment) parsed.dotenv_overrides))
      parsed.provided_flags

-- the three refusals
unfoldable pub refuse : Parsed → Result String (Unit {0})
refuse parsed = do
  fail_if (nonempty parsed.unknown_options)
      ("unknown command-line option(s): " ++ join (set_of (map option_name parsed.unknown_options)))
  fail_if (nonempty parsed.errors)
      ("invalid command-line value(s): " ++ (to_string (length parsed.errors) ++ " error(s)"))
  fail_if (nonempty parsed.extras)
      ("unexpected positional argument(s): " ++ to_string (length parsed.extras))

module _ (f : FlagParser) (contract : String) where
  -- the contract in a file, and its path
  unfoldable pub materialize : Result String String
  materialize = do
    created ← in_context "cannot create embedded flags-2-env contract: " f.new_file
    file ←
        in_context "cannot materialize embedded flags-2-env contract: "
          (f.write_all created contract)
    ok_or (f.path file) "flags-2-env contract path is not valid UTF-8"

  -- `resolve_from`
  unfoldable pub resolve_from : List String → List (String × String) → Result String (Map String)
  unfolding materialize refuse raw_of insert_typed
  resolve_from argv variables = do
    let environment = extend [] variables
    path ← materialize
    in_context "flags-2-env contract audit failed: " (f.audit_config path)
    parsed ← in_context "flags-2-env parsing failed: " (f.parse_structured argv path)
    refuse parsed
    typed ←
        in_context "flags-2-env typed configuration failed: "
          (f.coerce (raw_of parsed environment) path)
    insert_typed environment typed
