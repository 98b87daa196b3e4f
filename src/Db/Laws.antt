-- ===== src/Db/Laws.antt =====
-- src/db.rs: what stands behind a store and behind the events of a read.
use act_web_server_rs.Common.{
  ◌≤◌, ◌≡◌, ◌↔◌, ap, sym, refl, String, true, false, Option, some, List, [], ◌∷◌, ok, err, arith,
  Option-cases, Result-cases, inl, inr, bail, length, eq_iff,
}
use act_web_server_rs.Common.Text.{has_suffix}
use act_web_server_rs.Config.{DirectDatabaseConfig}
use act_web_server_rs.Db.{
  is_invalid_subject, DirectReadStore, EventProjection, connect, connect_store, events_for_subject,
  projection_of, projections_of, max_direct_rows, read_events_sql, timed_out_or,
}
use act_web_server_rs.Ports.{Ports, Timed, done, elapsed, failed, read_only}

module _ (p : Ports) where
  -- A projection holds the row's own columns, its payload parsed.
  abbrev pub IsProjection : p.Row → EventProjection → Type 0
  IsProjection row e =
      (p.try_get row "id" ≡ some e.id)
      × ((text : String) × (p.try_get row "payload_json" ≡ some text)
          × (p.parse_json_text text ≡ some e.payload))
      × (p.try_get row "created_at" ≡ some e.created_at)

  abbrev pub AreProjections : List p.Row → List EventProjection → Type 0
  AreProjections [] [] = Unit
  AreProjections [] (e ∷ es) = ⊥
  AreProjections (row ∷ rows) [] = ⊥
  AreProjections (row ∷ rows) (e ∷ es) = IsProjection row e × AreProjections rows es

  projection_of_sound :
      (row : p.Row) (e : EventProjection) → projection_of p row ≡ ok e → IsProjection row e
  unfolding projection_of
  projection_of_sound row e h = elim (Option-cases (p.try_get row "payload_json")) [
    | inl absent ↦ absurd (ground arith)
    | inr (text, found) ↦ (ground arith, (text, found, ground arith), ground arith)
  ]

  projections_of_sound :
      (rows : List p.Row) (es : List EventProjection)
      → projections_of p rows ≡ ok es
      → AreProjections rows es × (length es ≡ length rows)
  unfolding projections_of
  projections_of_sound [] [] h = (tt, refl)
  projections_of_sound [] (e ∷ es) h = cc
  projections_of_sound (row ∷ rows) [] h = absurd (ground arith)
  projections_of_sound (row ∷ rows) (e ∷ es) h =
      ground (arith, projection_of_sound row e, projections_of_sound rows es)

  -- The database is connected, and its own answer to `current_user` is the configured role, which ends
  -- in `_web_ro`.
  pub record IsProved (config : DirectDatabaseConfig) (w : p.World) (store : DirectReadStore p)
      : Type 0 where
    pub row : p.Row
    pub connected : (connect p config.url w).0 ≡ ok store.database
    pub asked :
        (p.query_one store.database "SELECT current_user AS role_name" (connect p config.url w).1).0
        ≡ some (some row)
    pub read : p.try_get row "role_name" ≡ some store.expected_role
    pub configured : store.expected_role ≡ config.expected_role
    pub reviewed : has_suffix "_web_ro" store.expected_role ≡ true

  IsProved-of_answers :
      (config : DirectDatabaseConfig) (w : p.World) (store : DirectReadStore p)
      (database : p.Database) (row : p.Row) (answer : Option p.Row) (role : String)
      → (connect p config.url w).0 ≡ ok database
      → (p.query_one database "SELECT current_user AS role_name" (connect p config.url w).1).0
        ≡ some answer
      → answer ≡ some row
      → p.try_get row "role_name" ≡ some role
      → (connect_store p config w).0 ≡ ok store
      → IsProved config w store
  unfolding connect_store
  IsProved-of_answers config w store database row answer role connected asked present read h =
      let same : role ≡ config.expected_role = ground (arith, eq_iff role config.expected_role) in
      let made : store.database ≡ database = ground arith in
      record {
        row = row;
        connected = ground arith;
        asked = ground arith;
        read = ground arith;
        configured = ground arith;
        reviewed = ground (arith, eq_iff role config.expected_role);
      }

  connect_store-IsProved :
      (config : DirectDatabaseConfig) (w : p.World) (store : DirectReadStore p)
      → (connect_store p config w).0 ≡ ok store
      → IsProved config w store
  unfolding connect_store
  connect_store-IsProved config w store h = elim (Result-cases (connect p config.url w).0) [
    | inr (e, lost) ↦ absurd (ground arith)
    | inl (database, connected) ↦
        let q =
          p.query_one database "SELECT current_user AS role_name" (connect p config.url w).1 in
        elim (Option-cases q.0) [
          | inl lost ↦ absurd (ground arith)
          | inr (answer, asked) ↦ elim (Option-cases answer) [
            | inl absent ↦ absurd (ground arith)
            | inr (row, present) ↦ elim (Option-cases (p.try_get row "role_name")) [
              | inl unreadable ↦ absurd (ground arith)
              | inr (role, read) ↦
                  IsProved-of_answers config w store database row answer role connected asked
                    present read h
            ]
          ]
        ]
  ]

  -- A store is returned exactly for a connection that is made and whose own answer to `current_user` is
  -- the configured role, which ends in `_web_ro`.
  pub connect_store_iff :
      (config : DirectDatabaseConfig) (w : p.World) (store : DirectReadStore p)
      → ((connect_store p config w).0 ≡ ok store) ↔ IsProved config w store
  unfolding connect_store
  connect_store_iff config w store = (
    connect_store-IsProved config w store,
    λ h.
        let whole : record { database = store.database; expected_role = config.expected_role }
            ≡ store =
          ap (λ (r : String). record { database = store.database; expected_role = r })
            (sym h.configured) in
        ground (
          arith,
          h.connected,
          h.asked,
          h.read,
          h.reviewed,
          h.configured,
          whole,
          eq_iff store.expected_role config.expected_role,
        ),
  )

  -- A read for a subject that is empty, longer than 256 bytes, with white space at an end or with a
  -- control character fails before the database is asked for anything.
  pub events_for_subject_invalid :
      (store : DirectReadStore p) (subject : String) (w : p.World)
      → is_invalid_subject subject ≡ true
      → events_for_subject p store subject w ≡ (err (bail "invalid actor subject"), w)
  unfolding events_for_subject
  events_for_subject_invalid store subject w h = rw (h, events_for_subject)

  -- the database's answers to a read
  pub record IsRead (store : DirectReadStore p) (subject : String) (w : p.World)
      (es : List EventProjection) : Type 0 where
    pub transaction : p.Transaction
    pub rows : List p.Row
    pub begun : (p.begin store.database read_only w).0 ≡ some transaction
    pub asked :
        (p.query_all transaction read_events_sql
          (subject ∷ [])
          (p.begin store.database read_only w).1).0
        ≡ done rows
    pub committed :
        (p.commit transaction
          (p.query_all transaction read_events_sql
            (subject ∷ [])
            (p.begin store.database read_only w).1).1).0
        ≡ some tt
    pub projected : AreProjections rows es
    pub bounded : length es ≤ max_direct_rows

  timed_out_or-eq-ok : {A : Type 0} (t : Timed A) (a : A) → timed_out_or t ≡ ok a → t ≡ done a
  timed_out_or-eq-ok elapsed a e = cc
  timed_out_or-eq-ok failed a e = cc
  timed_out_or-eq-ok (done b) a e = ground arith

  -- Events are returned only from a read-only transaction of the store's database in which the one
  -- fixed statement was run for this subject and which was committed: one event for each row, in
  -- order, with that row's columns, and at most 100.
  pub events_for_subject_sound :
      (store : DirectReadStore p) (subject : String) (w : p.World) (es : List EventProjection)
      → (events_for_subject p store subject w).0 ≡ ok es
      → (is_invalid_subject subject ≡ false)
        × (has_suffix "_web_ro" store.expected_role ≡ true)
        × IsRead store subject w es
  unfolding events_for_subject
  events_for_subject_sound store subject w es h =
      elim (Option-cases (p.begin store.database read_only w).0) [
        | inl refused ↦ absurd (ground arith)
        | inr (transaction, begun) ↦
            let q =
              p.query_all transaction read_events_sql (subject ∷ [])
                (p.begin store.database read_only w).1 in
            elim (Result-cases (timed_out_or q.0)) [
              | inr (e, lost) ↦ absurd (ground arith)
              | inl (rows, asked) ↦
                  let (projected, same) = projections_of_sound rows es (ground arith) in
                  (
                    ground arith,
                    ground arith,
                    record {
                      transaction = transaction;
                      rows = rows;
                      begun = begun;
                      asked = timed_out_or-eq-ok q.0 rows asked;
                      committed = ground arith;
                      projected = projected;
                      bounded = ground arith;
                    },
                  )
            ]
      ]
