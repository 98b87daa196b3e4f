-- ===== src/Ui/Browser.antt =====
-- src/ui.rs: what the script of the operator page sees of the browser: the elements that it writes,
-- `fetch`, and the properties of a parsed JSON value.
use act_web_server_rs.Common.{ℕ, String, Bool, false, Option, none, some, ◌==◌, if◌then◌else◌}
use act_web_server_rs.Common.Json.{
  Value, Members, null, bool, number, string, array, object, member, end,
}
use act_web_server_rs.Common.Outcome.{or_else}

-- what the script sets of an element
pub record Element : Type 0 where
  pub content : String
  pub class_name : String
  pub hidden : Bool

pub record Dom : Type 0 where
  pub health_status : Element
  pub ready_status : Element
  pub database_status : Element
  pub token : String
  pub identity_error : Element
  pub identity_result : Element

-- a response as `fetch` gives it; `json` is `none` where the body is not JSON
pub record Fetched : Type 0 where
  pub status : ℕ
  pub json : Option Value

pub record Browser (W : Type 0) : Type 0 where
  -- a GET of a path with an `Authorization` header, if there is one; `none` where `fetch` rejects
  pub fetch : String → Option String → W → Option Fetched × W
  -- `String.prototype.trim`, `JSON.stringify(value, null, 2)`, and whether a number's text is not zero
  pub trim : String → String
  pub stringify : Value → String
  pub is_nonzero : String → Bool

-- `value.name`: reading from `null` throws, and what is not there is undefined.
pub data Property : Type 0 where
  throws undefined : Property
  found : Value → Property

abbrev found_or_undefined : Option Value → Property
found_or_undefined none = undefined
found_or_undefined (some v) = found v

-- the last member with the name, as `JSON.parse` keeps it
unfoldable pub last_member : String → Members → Option Value
last_member name end = none
last_member name (member key value rest) =
    or_else (last_member name rest) (if key == name then some value else none)

unfoldable pub property : String → Value → Property
unfolding last_member
property name null = throws
property name (bool _) = undefined
property name (number _) = undefined
property name (string _) = undefined
property name (array _) = undefined
property name (object members) = found_or_undefined (last_member name members)

-- `value === text`
abbrev is_text : String → Value → Bool
is_text t (string s) = s == t
is_text t null = false
is_text t (bool _) = false
is_text t (number _) = false
is_text t (array _) = false
is_text t (object _) = false

abbrev pub is_ok_text : Property → Bool
is_ok_text throws = false
is_ok_text undefined = false
is_ok_text (found v) = is_text "ok" v
