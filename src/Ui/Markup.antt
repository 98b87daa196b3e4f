-- ===== src/Ui/Markup.antt =====
-- Documents as trees, as the macros of maud, leptos and dioxus build them.
use act_web_server_rs.Common.{
  String, Bool, false, Option, none, some, List, [], ◌∷◌, ◌++◌, ◌==◌, if◌then◌else◌,
}
use act_web_server_rs.Common.Outcome.{or_else}

mutual
  pub data Node : Type 0 where
    text : String → Node
    element : String → List (String × String) → Nodes → Node

  pub data Nodes : Type 0 where
    end : Nodes
    ◌▹◌ : Node → Nodes → Nodes

infixr 5 ◌▹◌
-- the value of an attribute
unfoldable pub attribute : String → List (String × String) → Option String
attribute name [] = none
attribute name ((n, value) ∷ rest) = if n == name then some value else attribute name rest

abbrev pub has_value : Option String → String → Bool
has_value none value = false
has_value (some v) value = v == value

-- `document.querySelector('[name="value"]')`: the first element in document order
unfoldable mutual
  pub find : String → String → Node → Option Node
  find name value (text _) = none
  find name value (element tag attributes children) =
      let below = find_in name value children in
      if has_value (attribute name attributes) value
      then some (element tag attributes children)
      else below

  pub find_in : String → String → Nodes → Option Node
  find_in name value end = none
  find_in name value (node ▹ nodes) = or_else (find name value node) (find_in name value nodes)

abbrev listed : Option String → List String
listed none = []
listed (some value) = value ∷ []

-- the values of an attribute, in document order
unfoldable mutual
  pub values : String → Node → List String
  values name (text _) = []
  values name (element tag attributes children) =
      listed (attribute name attributes) ++ values_in name children

  pub values_in : String → Nodes → List String
  values_in name end = []
  values_in name (node ▹ nodes) = values name node ++ values_in name nodes
