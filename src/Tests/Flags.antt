-- ===== src/Tests/Flags.antt =====
-- The resolution of the flags with a parser that knows one option.
use act_web_server_rs.Common.{
  ◌≡◌, ◌≢◌, refl, arith, String, Option, none, some, List, [], ◌∷◌, Result, ok, err, map,
}
use act_web_server_rs.Common.Json.{Value, null, number}
use act_web_server_rs.Common.Maps.{Map, get, insert, extend, remove, last_of, later_or, add, set_of}
use act_web_server_rs.Common.Text.{strip_prefix, split_head}
use act_web_server_rs.Flags.{
  FlagParser, Parsed, option_name, insert_typed, text_of, scalar_string, raw_of, refuse,
  resolve_from, materialize,
}
use act_web_server_rs.Flags.Help.{TomlReader}
use act_web_server_rs.Flags.Once.{Call, control, variable, answers, answer_of, answers-none}
use act_web_server_rs.Flags.Refusal.{SameNames, resolve_from-SameNames, resolve_from_hides_values}
use act_web_server_rs.Flags.Laws.{last_text, resolve_from_sound}

abbrev known : Parsed
known = record {
  unknown_options = [];
  errors = [];
  extras = [];
  dotenv = ("PORT", "1") ∷ ("LEVEL", "debug") ∷ [];
  dotenv_overrides = [];
  provided_flags = ("PORT", "3") ∷ [];
}

abbrev unknown : Parsed
unknown = record known { unknown_options = "--key=secret" ∷ "--api=token" ∷ "--key=other" ∷ [] }

abbrev parse : List String → String → Result String Parsed
parse [] path = ok known
parse (_ ∷ _) path = ok unknown

abbrev port_of : Option String → Map Value
port_of none = ("PORT", null) ∷ []
port_of (some port) = ("PORT", number port) ∷ []

abbrev pub parser : FlagParser
parser = record {
  File = String;
  new_file = ok "";
  write_all = λ file text. ok text;
  path = λ file. some file;
  audit_config = λ path. ok tt;
  parse_structured = parse;
  coerce = λ raw path. ok (port_of (get "PORT" raw));
}

abbrev pub variables : List (String × String)
variables = ("PORT", "2") ∷ ("HOME", "/") ∷ []

abbrev resolved : Map String
resolved = ("PORT", "3") ∷ ("HOME", "/") ∷ []

resolves : resolve_from parser "contract" [] variables ≡ ok resolved
unfolding resolve_from materialize refuse raw_of insert_typed text_of scalar_string extend insert
    remove get
resolves = refl

-- The options are named in order, once each and without their values.
refuses :
    resolve_from parser "contract" ("--key=secret" ∷ []) variables
    ≡ err "unknown command-line option(s): --api, --key"
unfolding resolve_from materialize refuse extend insert option_name strip_prefix split_head set_of
    add
refuses = refl

resolve_from_sound_example :
    (path : String) × (parsed : Parsed) × (typed : Map Value) × (materialize parser "contract"
      ≡ ok path)
    × (parser.audit_config path ≡ ok tt)
    × (parser.parse_structured [] path ≡ ok parsed)
    × (parsed.unknown_options ≡ [])
    × (parsed.errors ≡ [])
    × (parsed.extras ≡ [])
    × (parser.coerce (raw_of parsed (extend [] variables)) path ≡ ok typed)
    × ((j : String) → get j resolved ≡ later_or (last_text j typed) (last_of j variables))
resolve_from_sound_example = resolve_from_sound parser "contract" [] variables resolved resolves

-- a parser that knows no option
abbrev naive : FlagParser
naive = record parser {
  parse_structured = λ argv path. ok (record known { unknown_options = argv });
}

abbrev leaked : List String
leaked = "--key=secret" ∷ "--api=token" ∷ []

abbrev other : List String
other = "--api=x" ∷ "--key" ∷ "--api" ∷ []

leaked-ne_empty : leaked ≢ []
leaked-ne_empty e = cc

same_names : SameNames leaked other
unfolding option_name strip_prefix split_head
same_names name = ground arith

written : materialize naive "contract" ≡ ok "contract"
unfolding materialize
written = refl

resolve_from-SameNames_example :
    resolve_from naive "contract" leaked variables ≡ resolve_from naive "contract" other []
resolve_from-SameNames_example =
    resolve_from-SameNames naive "contract" leaked other variables [] "contract"
      (record known { unknown_options = leaked }) (record known { unknown_options = other }) written
      refl refl leaked-ne_empty same_names

abbrev secrets : List (String × String × String)
secrets = ("key", "secret", "x") ∷ ("api", "token", "y") ∷ []

secrets-ne_empty : secrets ≢ []
secrets-ne_empty e = cc

resolve_from_hides_values_example :
    resolve_from naive "contract" ("--key=secret" ∷ "--api=token" ∷ []) variables
    ≡ resolve_from naive "contract" ("--key=x" ∷ "--api=y" ∷ []) variables
resolve_from_hides_values_example =
    resolve_from_hides_values naive "contract" ("--key=secret" ∷ "--api=token" ∷ [])
      ("--key=x" ∷ "--api=y" ∷ []) variables "contract"
      (record known { unknown_options = "--key=secret" ∷ "--api=token" ∷ [] })
      (record known { unknown_options = "--key=x" ∷ "--api=y" ∷ [] }) secrets written refl refl
      secrets-ne_empty refl refl

abbrev silent_reader : TomlReader
silent_reader contract = err "no table"

-- The environment has changed after the first call.
abbrev asked : List (Call × List (String × String))
asked = (control, variables) ∷ (variable "PORT", ("PORT", "9") ∷ []) ∷ []

answers-none_example :
    answers parser silent_reader "contract" [] asked none
    ≡ map
        (λ (call : Call × List (String × String)).
          answer_of parser silent_reader "contract" [] call.0
            (resolve_from parser "contract" [] variables))
        asked
answers-none_example =
    answers-none parser silent_reader "contract" [] control variables
      ((variable "PORT", ("PORT", "9") ∷ []) ∷ [])
