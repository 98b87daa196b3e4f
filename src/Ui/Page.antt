-- ===== src/Ui/Page.antt =====
-- src/ui.rs: the operator page that `index` renders. The constants `STYLES` and `SCRIPT` are the texts
-- `styles` and `script`; what the script does is in Ui/Script.
use act_web_server_rs.Common.{◌≡◌, refl, String, some, List, [], ◌∷◌}
use act_web_server_rs.Ui.Markup.{Node, Nodes, text, element, end, ◌▹◌, attribute, find, values}

-- the attribute by which the script and the browser tests find an element
abbrev pub test_id : String
test_id = "data-testid"

abbrev only : String → Nodes
only t = text t ▹ end

unfoldable pub head : String → Node
head styles = element "head" [] (
    element "meta" (("charset", "utf-8") ∷ []) end
    ▹ element "meta"
        (("name", "viewport") ∷ ("content", "width=device-width, initial-scale=1") ∷ []) end
    ▹ element "title" [] (only "act-web-server")
    ▹ element "style" [] (only styles)
    ▹ end)

unfoldable pub status_section : Node
status_section = element "section" [] (
    element "h2" [] (only "Service status")
    ▹ element "dl" [] (
        element "dt" [] (only "Liveness")
        ▹ element "dd" ((test_id, "health-status") ∷ []) (only "checking…")
        ▹ element "dt" [] (only "Readiness")
        ▹ element "dd" ((test_id, "ready-status") ∷ []) (only "checking…")
        ▹ element "dt" [] (only "Database")
        ▹ element "dd" ((test_id, "database-status") ∷ []) (only "checking…")
        ▹ end)
    ▹ end)

unfoldable pub identity_form : Node
identity_form = element "form" ((test_id, "identity-form") ∷ ("autocomplete", "off") ∷ []) (
    element "label" (("for", "token") ∷ []) (only "Supabase access token")
    ▹ element "input"
        (("id", "token")
          ∷ ("name", "token")
          ∷ (test_id, "token-input")
          ∷ ("placeholder", "eyJhbGciOiJIUzI1NiIs…")
          ∷ ("spellcheck", "false")
          ∷ [])
        end
    ▹ element "button" (("type", "submit") ∷ (test_id, "verify-button") ∷ []) (only "Verify")
    ▹ end)

unfoldable pub identity_section : Node
unfolding identity_form
identity_section = element "section" [] (
    element "h2" [] (only "Verify a token")
    ▹ identity_form
    ▹ element "p" (("class", "bad") ∷ (test_id, "identity-error") ∷ ("hidden", "") ∷ []) end
    ▹ element "pre" ((test_id, "identity-result") ∷ ("hidden", "") ∷ []) end
    ▹ end)

-- `index`, behind the document type
unfoldable pub index : String → String → Node
unfolding head status_section identity_section
index styles script = element "html" (("lang", "en") ∷ []) (
    head styles
    ▹ element "body" [] (
        element "h1" ((test_id, "title") ∷ []) (only "act-web-server")
        ▹ status_section
        ▹ identity_section
        ▹ element "script" [] (only script)
        ▹ end)
    ▹ end)

-- the elements that the script looks up
pub data Slot : Type 0 where
  health_status ready_status database_status : Slot
  identity_form_slot token_input identity_error identity_result : Slot

unfoldable pub id_of_slot : Slot → String
id_of_slot health_status = "health-status"
id_of_slot ready_status = "ready-status"
id_of_slot database_status = "database-status"
id_of_slot identity_form_slot = "identity-form"
id_of_slot token_input = "token-input"
id_of_slot identity_error = "identity-error"
id_of_slot identity_result = "identity-result"

abbrev pub tag_of_slot : Slot → String
tag_of_slot health_status = "dd"
tag_of_slot ready_status = "dd"
tag_of_slot database_status = "dd"
tag_of_slot identity_form_slot = "form"
tag_of_slot token_input = "input"
tag_of_slot identity_error = "p"
tag_of_slot identity_result = "pre"

-- Each lookup of the script finds an element of the page, of the kind that the script takes it for, and
-- no other element of the page has its id, whatever the texts of the style and of the script.
pub index-lookup :
    (styles script : String) (slot : Slot)
    → ((attributes : List (String × String)) × (children : Nodes) × (find test_id
            (id_of_slot slot)
            (index styles script)
          ≡ some (element (tag_of_slot slot) attributes children)))
      × (values test_id (index styles script)
          ≡ "title" ∷ "health-status" ∷ "ready-status" ∷ "database-status" ∷ "identity-form"
            ∷ "token-input" ∷ "verify-button" ∷ "identity-error" ∷ "identity-result" ∷ [])
unfolding index id_of_slot find values attribute
index-lookup styles script health_status = ((_, _, refl), refl)
index-lookup styles script ready_status = ((_, _, refl), refl)
index-lookup styles script database_status = ((_, _, refl), refl)
index-lookup styles script identity_form_slot = ((_, _, refl), refl)
index-lookup styles script token_input = ((_, _, refl), refl)
index-lookup styles script identity_error = ((_, _, refl), refl)
index-lookup styles script identity_result = ((_, _, refl), refl)
