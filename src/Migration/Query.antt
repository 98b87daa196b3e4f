-- ===== src/Migration/Query.antt =====
-- src/db.rs: the statement `READ_EVENTS_SQL`, in its parts, and what PostgreSQL answers to a statement
-- of this form.
use act_web_server_rs.Common.{
  ℕ, ◌≤◌, ◌≡◌, refl, String, true, Option, none, some, List, [], ◌∷◌, All, length, ◌==◌,
  if◌then◌else◌,
}
use act_web_server_rs.Common.Decimal.{to_string}
use act_web_server_rs.Ports.{Ports, done}
use act_web_server_rs.Db.{read_events_sql, max_direct_rows}
use act_web_server_rs.Migration.{ColumnDef}
use Prim.Native.String.{◌++◌}

-- `<column>::text AS <alias>`
pub record Selected : Type 0 where
  pub source : String
  pub alias : String

-- `SELECT … FROM … WHERE … = $1 ORDER BY … DESC LIMIT …`
pub record Select : Type 0 where
  pub selected : List Selected
  pub from : String
  pub filter_by : String
  pub order_by : String
  pub limit : ℕ

abbrev pub selected_text : Selected → String
selected_text s = s.source ++ "::text AS " ++ s.alias

abbrev pub list_text : List Selected → String
list_text [] = ""
list_text (s ∷ []) = selected_text s
list_text (s ∷ t ∷ rest) = selected_text s ++ ", " ++ list_text (t ∷ rest)

unfoldable pub print_select : Select → String
unfolding to_string
print_select s =
    "SELECT "
    ++ list_text s.selected
    ++ " FROM "
    ++ s.from
    ++ " WHERE "
    ++ s.filter_by
    ++ " = $1 ORDER BY "
    ++ s.order_by
    ++ " DESC LIMIT "
    ++ to_string s.limit

abbrev pub read_events : Select
read_events = record {
  selected =
      record { source = "id"; alias = "id" }
      ∷ record { source = "payload"; alias = "payload_json" }
      ∷ record { source = "created_at"; alias = "created_at" }
      ∷ [];
  from = "events";
  filter_by = "subject";
  order_by = "created_at";
  limit = max_direct_rows;
}

-- The statement of the source is the print of these parts, and its limit is the code's bound.
pub print_select-read_events : print_select read_events ≡ read_events_sql
unfolding print_select
print_select-read_events = refl

abbrev pub find_column : String → List ColumnDef → Option ColumnDef
find_column name [] = none
find_column name (column ∷ columns) =
    if column.name == name then some column else find_column name columns

module _ (p : Ports) (tables : p.World → String → Option (List ColumnDef)) where
  -- A selected column that cannot be null is answered as a text under its alias.
  abbrev pub IsAnswered : List ColumnDef → p.Row → Selected → Type 0
  IsAnswered columns row s =
      (column : ColumnDef)
      → find_column s.source columns ≡ some column
      → column.not_null ≡ true
      → (text : String) × (p.try_get row s.alias ≡ some text)

  -- the rows that the statement gives: at most as many as its limit, and with every selected column
  pub record IsPostgres (s : Select) : Type 0 where
    pub answers :
        (parameters : List String) (columns : List ColumnDef) (transaction : p.Transaction)
        (w : p.World) (rows : List p.Row)
        → tables w s.from ≡ some columns
        → (p.query_all transaction (print_select s) parameters w).0 ≡ done rows
        → (length rows ≤ s.limit) × All (λ row. All (IsAnswered columns row) s.selected) rows
