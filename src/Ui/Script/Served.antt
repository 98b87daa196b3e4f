-- ===== src/Ui/Script/Served.antt =====
-- src/ui.rs with src/routes.rs: the operator page in a browser that reaches the server.
use Prim.Native.String.{◌++◌}
use act_web_server_rs.Common.{
  ◌≡◌, ◌≢◌, inl, inr, refl, String, true, false, Option, none, some, ok, err, arith, ◌==◌,
  if◌then◌else◌, Option-cases, Result-cases,
}
use act_web_server_rs.Common.Json.{Value, object, member, string, end}
use act_web_server_rs.Common.Text.Laws.{is_empty_iff}
use act_web_server_rs.Ports.{Ports}
use act_web_server_rs.Auth.{
  HeaderMap, authorization_header, SharedAuthVerifier, VerifiedIdentity, AuthFailure, missing,
  invalid, unavailable, verify,
}
use act_web_server_rs.Gateway.State.{Server}
use act_web_server_rs.Routes.{
  AppState, health_probe, ready_probe, own_identity, Features, serve, health, ready, me,
  require_auth,
}
use act_web_server_rs.Routes.Reply.{Body, json, page, path_rejection, empty, Response, private_json}
use act_web_server_rs.Ui.Script.{
  load_status, load_health, load_ready, submit, show_response, is_truthy,
}
use act_web_server_rs.Ui.Browser.{Browser, Dom, Fetched, property, last_member}

-- the headers of a request of the page
abbrev pub headers_of : Option String → HeaderMap
headers_of authorization name = if name == authorization_header then authorization else none

abbrev pub json_of_body : Body → Option Value
json_of_body (json value) = some value
json_of_body (page _) = none
json_of_body path_rejection = none
json_of_body empty = none

abbrev pub fetched_of : {S : Type 0} → Response × S → Option Fetched × S
fetched_of (r, s) = (some (record { status = r.status; json = json_of_body r.body }), s)

module _ (p : Ports) (features : Features) (state : AppState p) (b : Browser (Server p)) where
  -- The browser's requests for the status, and the one with the token, arrive at this server.
  pub record Reaches (token : String) : Type 0 where
    pub health :
        (s : Server p)
        → b.fetch "/health" none s
          ≡ fetched_of (serve p features state health_probe (headers_of none) s)
    pub ready :
        (s : Server p)
        → b.fetch "/ready" none s
          ≡ fetched_of (serve p features state ready_probe (headers_of none) s)
    pub me :
        (s : Server p)
        → b.fetch "/api/me" (some ("Bearer " ++ token)) s
          ≡ fetched_of
              (serve p features state own_identity (headers_of (some ("Bearer " ++ token))) s)

  -- The page of a server that it reaches shows `ok` and `ready`, and shows the database as not
  -- configured, whether the server is connected to one or not.
  pub load_status_served :
      (dom : Dom) (s : Server p) (token : String)
      → Reaches token
      → ((load_status b dom s).0.health_status.content ≡ "ok")
        × ((load_status b dom s).0.ready_status.content ≡ "ready")
        × ((load_status b dom s).0.database_status.content ≡ "not configured")
        × ((load_status b dom s).1 ≡ s)
  unfolding load_status load_health load_ready serve health ready property last_member is_truthy
  load_status_served dom s token r = rw (r.health s, r.ready s) (refl, refl, refl, refl)

  abbrev pub message_of : AuthFailure → String
  message_of missing = "Token rejected (401)."
  message_of invalid = "Token rejected (401)."
  message_of unavailable = "Verification unavailable: no signing secret configured (503)."

  abbrev pub ShowsError : Dom → String → Type 0
  ShowsError dom message =
      (dom.identity_error.content ≡ message)
      × (dom.identity_error.hidden ≡ false)
      × (dom.identity_result.hidden ≡ true)

  abbrev pub ShowsIdentity : Dom → VerifiedIdentity → Type 0
  ShowsIdentity dom identity =
      (dom.identity_result.content
        ≡ b.stringify (object (member "sub" (string identity.subject) end)))
      × (dom.identity_result.hidden ≡ false)
      × (dom.identity_error.hidden ≡ true)

  -- what the server can say of a token, and what the page shows of it
  pub data Verdict (token : String) (s : Server p) (dom : Dom) : Type 0 where
    closed :
        state.shared_auth ≡ none
        → ShowsError dom "Verification unavailable: no signing secret configured (503)."
        → Verdict token s dom
    refused :
        (v : SharedAuthVerifier p) (f : AuthFailure)
        → state.shared_auth ≡ some v
        → (verify p v (headers_of (some ("Bearer " ++ token))) s.world).0 ≡ err f
        → ShowsError dom (message_of f)
        → Verdict token s dom
    accepted :
        (v : SharedAuthVerifier p) (identity : VerifiedIdentity)
        → state.shared_auth ≡ some v
        → (verify p v (headers_of (some ("Bearer " ++ token))) s.world).0 ≡ ok identity
        → ShowsIdentity dom identity
        → Verdict token s dom

  -- For a token that is not blank the page shows what the server's verifier says of it: its subject if
  -- it is accepted, that it is rejected if it is not, and that it cannot be verified if the authority
  -- does not answer or none is configured; no answer of this server is unexpected to the page.
  pub submit_served :
      (dom : Dom) (s : Server p)
      → b.trim dom.token ≢ ""
      → Reaches (b.trim dom.token)
      → Verdict (b.trim dom.token) s (submit b dom s).0
  unfolding submit show_response serve me private_json require_auth
  submit_served dom s filled r =
      let token = b.trim dom.token in
      let sent = r.me s in
      elim (Option-cases state.shared_auth) [
        | inl absent ↦ closed absent (ground (arith, is_empty_iff token))
        | inr (v, present) ↦
            elim (Result-cases (verify p v (headers_of (some ("Bearer " ++ token))) s.world).0) [
              | inl (identity, known) ↦
                  accepted v identity present known (ground (arith, is_empty_iff token))
              | inr (missing, unknown) ↦
                  refused v missing present unknown (ground (arith, is_empty_iff token))
              | inr (invalid, unknown) ↦
                  refused v invalid present unknown (ground (arith, is_empty_iff token))
              | inr (unavailable, unknown) ↦
                  refused v unavailable present unknown (ground (arith, is_empty_iff token))
            ]
      ]
