-- ===== src/Ui/Script.antt =====
-- src/ui.rs: the script of the operator page, `SCRIPT`, as the browser runs it: `loadStatus` and the
-- handler of the form. The elements that it writes are the fields of `Dom`; what the browser and the
-- language provide is the parameter `Browser`.
pub mod Overlap
pub mod Served
use Prim.Native.String.{◌++◌}
use act_web_server_rs.Common.{
  ℕ, String, Bool, true, false, Option, none, some, ◌==◌, ◌&&◌, leb, ltb, eqb, if◌then◌else◌,
}
use act_web_server_rs.Common.Decimal.{to_string}
use act_web_server_rs.Common.Json.{
  Value, Members, null, bool, number, string, array, object, member, end,
}
use act_web_server_rs.Common.Outcome.{or_else}
use act_web_server_rs.Ui.Browser.{
  Element, Dom, Fetched, Browser, Property, throws, undefined, found, last_member, property,
  is_ok_text,
}
use act_web_server_rs.Common.Text.{is_empty}

-- `response.ok`
abbrev pub is_ok_status : ℕ → Bool
is_ok_status status = leb 200 status && ltb status 300

abbrev pub show : String → String → Element → Element
show content class_name e = record e { content = content; class_name = class_name }

-- `error.textContent = message; error.hidden = false`
abbrev pub show_error : String → Dom → Dom
show_error message dom = record dom {
  identity_error = record dom.identity_error { content = message; hidden = false };
}

-- a `catch` of the first block
abbrev health_unreachable : Dom → Dom
health_unreachable dom = record dom { health_status = show "unreachable" "bad" dom.health_status }

abbrev set_health : Bool → Dom → Dom
set_health true dom = record dom { health_status = show "ok" "good" dom.health_status }
set_health false dom = record dom { health_status = show "unexpected" "bad" dom.health_status }

-- the first block with `health.status` read
abbrev health_of : Property → Dom → Dom
health_of throws dom = health_unreachable dom
health_of undefined dom = set_health false dom
health_of (found v) dom = set_health (is_ok_text (found v)) dom

abbrev pub json_of : Option Fetched → Option Value
json_of none = none
json_of (some response) = response.json

abbrev health_from : Option Value → Dom → Dom
health_from none dom = health_unreachable dom
health_from (some health) dom = health_of (property "status" health) dom

abbrev ready_unreachable : Dom → Dom
ready_unreachable dom = record dom {
  ready_status = show "unreachable" "bad" dom.ready_status;
  database_status = record dom.database_status { content = "unknown" };
}

module _ {W : Type 0} (b : Browser W) where
  -- `value ? … : …`
  unfoldable pub is_truthy : Value → Bool
  is_truthy null = false
  is_truthy (bool v) = v
  is_truthy (number text) = b.is_nonzero text
  is_truthy (string text) = if is_empty text then false else true
  is_truthy (array _) = true
  is_truthy (object _) = true

  abbrev holds : Property → Bool
  holds throws = false
  holds undefined = false
  holds (found v) = is_truthy v

  abbrev set_ready : Bool → Bool → Dom → Dom
  set_ready ready connected dom = record dom {
    ready_status =
        if ready
        then show "ready" "good" dom.ready_status
        else show "not ready" "bad" dom.ready_status;
    database_status = record dom.database_status {
      content = if connected then "connected" else "not configured";
    };
  }

  -- the second block, with what `ready.ready` and `ready.database_connected` are
  abbrev ready_of : Property → Property → Dom → Dom
  ready_of throws connected dom = ready_unreachable dom
  ready_of undefined connected dom = set_ready false (holds connected) dom
  ready_of (found v) connected dom = set_ready (is_truthy v) (holds connected) dom

  abbrev ready_from : Option Value → Dom → Dom
  ready_from none dom = ready_unreachable dom
  ready_from (some ready) dom =
      ready_of (property "ready" ready) (property "database_connected" ready) dom

  -- the two blocks of `loadStatus`
  unfoldable pub load_health : Dom → W → Dom × W
  unfolding property
  load_health dom w = let (r, w') = b.fetch "/health" none w in (health_from (json_of r) dom, w')

  unfoldable pub load_ready : Dom → W → Dom × W
  unfolding property is_truthy
  load_ready dom w = let (r, w') = b.fetch "/ready" none w in (ready_from (json_of r) dom, w')

  abbrev pub then_with : (Dom → W → Dom × W) → Dom × W → Dom × W
  then_with f (dom, w) = f dom w

  -- `loadStatus`
  unfoldable pub load_status : Dom → W → Dom × W
  unfolding load_health load_ready
  load_status dom w = then_with load_ready (load_health dom w)

  abbrev show_result : Option Value → Dom → Dom
  show_result none dom = show_error "Request failed." dom
  show_result (some value) dom = record dom {
    identity_result = record dom.identity_result { content = b.stringify value; hidden = false };
  }

  abbrev refusal : ℕ → String
  refusal status =
      if eqb status 401
      then "Token rejected (401)."
      else if eqb status 503
      then "Verification unavailable: no signing secret configured (503)."
      else "Unexpected response (" ++ (to_string status ++ ").")

  -- the `try` of the form's handler, with what `fetch` gives
  unfoldable pub show_response : Option Fetched → Dom → Dom
  show_response none dom = show_error "Request failed." dom
  show_response (some response) dom =
      if is_ok_status response.status
      then show_result response.json dom
      else show_error (refusal response.status) dom

  abbrev both_hidden : Dom → Dom
  both_hidden dom = record dom {
    identity_error = record dom.identity_error { hidden = true };
    identity_result = record dom.identity_result { hidden = true };
  }

  -- The handler of the form's `submit` up to its `await`, with the token that it sends if there is one.
  unfoldable pub submit_begin : Dom → Dom × Option String
  submit_begin dom =
      let token = b.trim dom.token in
      if is_empty token
      then (show_error "Enter a token first." (both_hidden dom), none)
      else (both_hidden dom, some token)

  -- the rest of the handler, where nothing comes in between
  abbrev send : Dom × Option String → W → Dom × W
  send (dom, none) w = (dom, w)
  send (dom, some token) w =
      let (r, w') = b.fetch "/api/me" (some ("Bearer " ++ token)) w in (show_response r dom, w')

  -- the handler of the form's `submit`
  unfoldable pub submit : Dom → W → Dom × W
  unfolding submit_begin show_response
  submit dom w = send (submit_begin dom) w
