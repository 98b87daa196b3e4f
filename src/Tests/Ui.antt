-- ===== src/Tests/Ui.antt =====
-- The operator page in a browser that reaches the small world's server.
use mathlib.Core.Logic.{◌≢◌}
use act_web_server_rs.Common.{
  none, some, ◌≡◌, refl, String, Option, true, false, if◌then◌else◌, ◌==◌,
}
use act_web_server_rs.Common.Text.{trim, trim_start, trim_end, trim_last, is_whitespace}
use act_web_server_rs.Gateway.State.{Server}
use act_web_server_rs.Routes.{health_probe, ready_probe, own_identity, serve}
use act_web_server_rs.Ui.Script.{load_status, submit, show_response}
use act_web_server_rs.Ui.Browser.{Browser, Dom, Element, Fetched}
use act_web_server_rs.Ui.Script.Served.{
  fetched_of, headers_of, Reaches, Verdict, load_status_served, submit_served,
}
use act_web_server_rs.Ui.Script.Overlap.{begun_twice}
use act_web_server_rs.Common.Json.{null}
use act_web_server_rs.Tests.Fixture.{ports}
use act_web_server_rs.Tests.State.{state, server, features}

abbrev fetch_test : String → Option String → Server ports → Option Fetched × Server ports
fetch_test path authorization s =
    if path == "/health"
    then fetched_of (serve ports features state health_probe (headers_of authorization) s)
    else if path == "/ready"
    then fetched_of (serve ports features state ready_probe (headers_of authorization) s)
    else fetched_of (serve ports features state own_identity (headers_of authorization) s)

abbrev browser : Browser (Server ports)
browser = record {
  fetch = fetch_test;
  trim = trim;
  stringify = λ value. "{ \"sub\": \"actor-1\" }";
  is_nonzero = λ text. true;
}

abbrev checking : Element
checking = record { content = "checking…"; class_name = ""; hidden = false }

abbrev blank : Element
blank = record { content = ""; class_name = ""; hidden = true }

abbrev dom : Dom
dom = record {
  health_status = checking;
  ready_status = checking;
  database_status = checking;
  token = "token";
  identity_error = blank;
  identity_result = blank;
}

reaches : (token : String) → Reaches ports features state browser token
reaches token = record { health = λ s. refl; ready = λ s. refl; me = λ s. refl }

load_status_served_example :
    ((load_status browser dom server).0.health_status.content ≡ "ok")
    × ((load_status browser dom server).0.ready_status.content ≡ "ready")
    × ((load_status browser dom server).0.database_status.content ≡ "not configured")
    × ((load_status browser dom server).1 ≡ server)
load_status_served_example =
    load_status_served ports features state browser dom server "token" (reaches "token")

filled : trim "token" ≢ ""
unfolding trim trim_start trim_end trim_last is_whitespace
filled e = cc

submit_served_example :
    Verdict ports features state browser (trim "token") server (submit browser dom server).0
submit_served_example =
    submit_served ports features state browser dom server filled (reaches (trim "token"))

abbrev refusal : Fetched
refusal = record { status = 401; json = none }

abbrev acceptance : Fetched
acceptance = record { status = 200; json = some null }

abbrev refused_first : Dom
refused_first =
    show_response browser (some acceptance)
      (show_response browser (some refusal) (begun_twice browser dom "other"))

abbrev accepted_first : Dom
accepted_first =
    show_response browser (some refusal)
      (show_response browser (some acceptance) (begun_twice browser dom "other"))
