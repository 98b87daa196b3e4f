-- ===== src/Ui/Adapters.antt =====
-- src/ui_leptos.rs and src/ui_dioxus.rs: the two optional pages. Their renderers, `to_html` and
-- `render_element`, are the parameter `render`; the constant `STYLES` of each is the text `styles`.
use Prim.Native.String.{◌++◌}
use act_web_server_rs.Common.{◌≡◌, refl, String, Bool, [], ◌∷◌, if◌then◌else◌, some, arith}
use act_web_server_rs.Ports.{Ports}
use act_web_server_rs.Auth.{HeaderMap}
use act_web_server_rs.Gateway.State.{Server}
use act_web_server_rs.Routes.{AppState, Features, Route, path_of, serve}
use act_web_server_rs.Ui.Markup.{Node, Nodes, text, element, end, ◌▹◌, attribute, values}

abbrev only : String → Nodes
only t = text t ▹ end

-- `<li><strong>name</strong>value</li>`
abbrev entry : String → String → Node
entry name value = element "li" [] (element "strong" [] (only name) ▹ text value ▹ end)

-- the tree in `ui_leptos::index`
unfoldable pub leptos_body : Node
leptos_body = element "main" (("data-framework", "leptos") ∷ []) (
    element "p" (("class", "eyebrow") ∷ []) (only "OPTIONAL SSR ADAPTER")
    ▹ element "h1" [] (only "AntiCapTrad · Leptos")
    ▹ element "p" (("class", "lede") ∷ [])
        (only "A fine-grained Rust UI surface mounted inside the existing Axum service.")
    ▹ element "section" [] (
        element "h2" [] (only "Runtime boundary")
        ▹ element "ul" [] (
            entry "Router: " "Axum"
            ▹ entry "Renderer: " "Leptos SSR"
            ▹ entry "Activation: " "ui-leptos Cargo feature"
            ▹ end)
        ▹ end)
    ▹ element "nav" (("aria-label", "UI runtime links") ∷ []) (
        element "a" (("href", "/") ∷ []) (only "Maud operator UI")
        ▹ text " · "
        ▹ element "a" (("href", "/ui/dioxus") ∷ []) (only "Dioxus adapter")
        ▹ end)
    ▹ end)

-- the tree in `ui_dioxus::index`
unfoldable pub dioxus_body : Node
dioxus_body = element "main" (("data-framework", "dioxus") ∷ []) (
    element "p" (("class", "eyebrow") ∷ []) (only "OPTIONAL SSR ADAPTER")
    ▹ element "h1" [] (only "AntiCapTrad · Dioxus")
    ▹ element "p" (("class", "lede") ∷ [])
        (only "A component-oriented Rust UI surface mounted inside the existing Axum service.")
    ▹ element "section" [] (
        element "h2" [] (only "Runtime boundary")
        ▹ element "ul" [] (
            entry "Router: " "Axum"
            ▹ entry "Renderer: " "Dioxus SSR"
            ▹ entry "Activation: " "ui-dioxus Cargo feature"
            ▹ end)
        ▹ end)
    ▹ element "nav" (("aria-label", "UI runtime links") ∷ []) (
        element "a" (("href", "/") ∷ []) (only "Maud operator UI")
        ▹ text " · "
        ▹ element "a" (("href", "/ui/leptos") ∷ []) (only "Leptos adapter")
        ▹ end)
    ▹ end)

-- `document`, the same in both
unfoldable pub document : String → String → String → String
document styles title body =
    "<!doctype html><html lang=\"en\"><head><meta charset=\"utf-8\"><meta name=\"viewport\" content=\"width=device-width, initial-scale=1\"><title>"
    ++ (title
        ++ (" · act-web-server</title><style>"
            ++ (styles ++ ("</style></head><body>" ++ (body ++ "</body></html>")))))

-- `ui_leptos::index` and `ui_dioxus::index`
unfoldable pub leptos_index : (Node → String) → String → String
unfolding leptos_body document
leptos_index render styles = document styles "Leptos" (render leptos_body)

unfoldable pub dioxus_index : (Node → String) → String → String
unfolding dioxus_body document
dioxus_index render styles = document styles "Dioxus" (render dioxus_body)

pub data Adapter : Type 0 where
  leptos_adapter dioxus_adapter : Adapter

abbrev pub body_of : Adapter → Node
body_of leptos_adapter = leptos_body
body_of dioxus_adapter = dioxus_body

-- the page that the other link leads to
abbrev pub other_route : Adapter → Route
other_route leptos_adapter = Route.dioxus
other_route dioxus_adapter = Route.leptos

abbrev pub is_enabled_route : Features → Adapter → Bool
is_enabled_route features leptos_adapter = features.ui_dioxus
is_enabled_route features dioxus_adapter = features.ui_leptos

module _ (p : Ports) where
  -- The links of an adapter's page are the path of the operator page, which is always served, and the
  -- path of the other adapter's page, which is answered with 404 in a build without the other feature.
  pub body-links :
      (adapter : Adapter) (features : Features) (state : AppState p) (headers : HeaderMap)
      (s : Server p)
      → ((other : String) × (path_of (other_route adapter) ≡ some other)
          × (values "href" (body_of adapter) ≡ "/" ∷ other ∷ []))
        × (path_of Route.index ≡ some "/")
        × ((serve p features state Route.index headers s).0.status ≡ 200)
        × ((serve p features state (other_route adapter) headers s).0.status
            ≡ (if is_enabled_route features adapter then 200 else 404))
  unfolding leptos_body dioxus_body values attribute path_of serve
  body-links leptos_adapter features state headers s =
      (("/ui/dioxus", refl, refl), refl, refl, ground arith)
  body-links dioxus_adapter features state headers s =
      (("/ui/leptos", refl, refl), refl, refl, ground arith)
