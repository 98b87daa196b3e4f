-- ===== src/Migration/Reads.antt =====
-- src/db.rs over the table of migration/src.
use act_web_server_rs.Common.{
  ap, ◌≡◌, ◌↔◌, refl, String, true, false, Option, some, List, [], ◌∷◌, All, is_ok, Result-cases,
  inl, inr, arith, length,
}
use act_web_server_rs.Common.Json.{Value}
use act_web_server_rs.Common.Text.{has_suffix}
use act_web_server_rs.Ports.{Ports, done, read_only}
use act_web_server_rs.Db.{
  DirectReadStore, EventProjection, events_for_subject, is_invalid_subject, read_events_sql,
}
use act_web_server_rs.Db.Laws.{AreProjections, IsProjection}
use act_web_server_rs.Db.Complete.{events_for_subject_iff}
use act_web_server_rs.Migration.{ColumnDef, event_columns}
use act_web_server_rs.Migration.Query.{
  read_events, print_select-read_events, IsPostgres, IsAnswered,
}

module _ (p : Ports) (tables : p.World → String → Option (List ColumnDef)) where
  -- the row's payload is JSON that the parser reads
  abbrev pub HasJson : p.Row → Type 0
  HasJson row =
      (text : String)
      → p.try_get row "payload_json" ≡ some text
      → (value : Value) × (p.parse_json_text text ≡ some value)

  projected_row :
      (row : p.Row)
      → All (IsAnswered p tables event_columns row) read_events.selected
      → HasJson row
      → (e : EventProjection) × IsProjection p row e
  unfolding event_columns
  projected_row row (id, rest) json =
      let (id_text, id_found) = id _ refl refl in
      let (text, found) = rest.0 _ refl refl in
      let (created_at, created_at_found) = rest.1.0 _ refl refl in
      let (value, parsed) = json text found in
      (
        record { id = id_text; payload = value; created_at = created_at },
        (id_found, (text, found, parsed), created_at_found),
      )

  projected_rows :
      (rows : List p.Row)
      → All (λ row. All (IsAnswered p tables event_columns row) read_events.selected) rows
      → All HasJson rows
      → (es : List EventProjection) × AreProjections p rows es × (length es ≡ length rows)
  projected_rows [] h j = ([], tt, refl)
  projected_rows (row ∷ rows) (h, hs) (j, js) =
      let (e, one) = projected_row row h j in
      let (es, rest, same) = projected_rows rows hs js in (e ∷ es, (one, rest), omega arith)

  rows-HaveJson :
      (rows : List p.Row) (es : List EventProjection) → AreProjections p rows es → All HasJson rows
  rows-HaveJson [] [] h = tt
  rows-HaveJson [] (e ∷ es) h = elim h [ ]
  rows-HaveJson (row ∷ rows) [] h = elim h [ ]
  rows-HaveJson (row ∷ rows) (e ∷ es) ((id, (text, found, parsed), created_at), rest) =
      ((λ text' found'. (e.payload, ground arith)), rows-HaveJson rows es rest)

  -- The database begins a transaction, answers in it and commits it, and the payloads can be read.
  pub record IsServed (store : DirectReadStore p) (subject : String) (w : p.World) : Type 0 where
    pub transaction : p.Transaction
    pub rows : List p.Row
    pub begun : (p.begin store.database read_only w).0 ≡ some transaction
    pub asked :
        (p.query_all transaction read_events_sql
          (subject ∷ [])
          (p.begin store.database read_only w).1).0
        ≡ done rows
    pub committed :
        (p.commit transaction
          (p.query_all transaction read_events_sql
            (subject ∷ [])
            (p.begin store.database read_only w).1).1).0
        ≡ some tt
    pub readable : All HasJson rows

  module _ (store : DirectReadStore p) (subject : String) (w : p.World) where
    IsServed-ok : is_ok (events_for_subject p store subject w).0 ≡ true → IsServed store subject w
    IsServed-ok h = elim (Result-cases (events_for_subject p store subject w).0) [
      | inr (e, failed) ↦ absurd (ground arith)
      | inl (es, read) ↦
          let q = (events_for_subject_iff p store subject w es).0 read in
          record {
            transaction = q.2.transaction;
            rows = q.2.rows;
            begun = q.2.begun;
            asked = q.2.asked;
            committed = q.2.committed;
            readable = rows-HaveJson q.2.rows es q.2.projected;
          }
    ]

    ok-IsServed :
        IsPostgres p tables read_events
        → tables (p.begin store.database read_only w).1 "events" ≡ some event_columns
        → is_invalid_subject subject ≡ false
        → has_suffix "_web_ro" store.expected_role ≡ true
        → IsServed store subject w
        → is_ok (events_for_subject p store subject w).0 ≡ true
    ok-IsServed database migrated valid reviewed s =
        let (few, answered) =
          database.answers (subject ∷ []) event_columns s.transaction
            (p.begin store.database read_only w).1 s.rows migrated
            (rw print_select-read_events s.asked) in
        let (es, projected, same) = projected_rows s.rows answered s.readable in
        let read = (events_for_subject_iff p store subject w es).1 (
          valid,
          reviewed,
          record {
            transaction = s.transaction;
            rows = s.rows;
            begun = s.begun;
            asked = s.asked;
            committed = s.committed;
            projected = projected;
            bounded = omega arith;
          },
        ) in
        ap is_ok read

    -- On the table that the migration makes, in a database that answers a statement with at most as many
    -- rows as its limit and with each selected column that cannot be null, a read for a valid subject, from
    -- a store with a reviewed role, succeeds exactly if the database begins the transaction, answers and
    -- commits, and every payload it answers is JSON that the parser reads: no row lacks a column and none
    -- is too many.
    pub events_for_subject_migrated_iff :
        IsPostgres p tables read_events
        → tables (p.begin store.database read_only w).1 "events" ≡ some event_columns
        → is_invalid_subject subject ≡ false
        → has_suffix "_web_ro" store.expected_role ≡ true
        → (is_ok (events_for_subject p store subject w).0 ≡ true) ↔ IsServed store subject w
    events_for_subject_migrated_iff database migrated valid reviewed =
        (IsServed-ok, ok-IsServed database migrated valid reviewed)
