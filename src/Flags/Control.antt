-- ===== src/Flags/Control.antt =====
-- src/flags.rs: `process_control` and `var`, on the resolved settings that the process keeps.
use Prim.Native.String.{◌++◌}
use act_web_server_rs.Common.{
  String, Bool, false, Option, none, some, Result, ok, err, ◌==◌, if◌then◌else◌,
}
use act_web_server_rs.Common.Maps.{Map, get}
use act_web_server_rs.Flags.Help.{TomlReader, help_table, package_name, package_version}

-- `values.get(name).map(String::as_str) == Some("true")`
abbrev is_set : Option String → Bool
is_set none = false
is_set (some value) = value == "true"

-- `var`, whose error says only that the name has no value
unfoldable pub var : Map String → String → Option String
var resolved name = get name resolved

-- `.map(Some)`
abbrev shown : Result String String → Result String (Option String)
shown (ok text) = ok (some text)
shown (err e) = err e

-- `process_control`, behind `try_resolved`
unfoldable pub control_of : TomlReader → String → Map String → Result String (Option String)
control_of read contract values =
    if is_set (get "CLI_HELP_REQUESTED" values)
    then shown (help_table read contract)
    else if is_set (get "CLI_VERSION_REQUESTED" values)
    then ok (some (package_name ++ (" " ++ (package_version ++ "\n"))))
    else ok none

-- `process_control`
unfoldable pub process_control :
    TomlReader → String → Result String (Map String) → Result String (Option String)
unfolding control_of
process_control read contract (err e) = err e
process_control read contract (ok values) = control_of read contract values
