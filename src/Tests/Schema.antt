-- ===== src/Tests/Schema.antt =====
-- A read of the table in the small world.
use act_web_server_rs.Common.{
  ◌≡◌, ◌↔◌, refl, sym, String, true, false, Option, none, some, List, [], ◌∷◌, ◌==◌, if◌then◌else◌,
  is_ok, arith, length, ◌≤◌, All,
}
use act_web_server_rs.Common.Text.{
  is_empty, trim, trim_start, trim_end, trim_last, is_whitespace, any_char, is_control, has_suffix,
}
use act_web_server_rs.Ports.{done}
use act_web_server_rs.Db.{events_for_subject, is_invalid_subject, max_direct_rows}
use act_web_server_rs.Migration.{ColumnDef, event_columns}
use act_web_server_rs.Migration.Query.{IsPostgres, IsAnswered, read_events}
use act_web_server_rs.Migration.Reads.{IsServed, events_for_subject_migrated_iff}
use act_web_server_rs.Auth.{verify}
use act_web_server_rs.Routes.{serve, data_read}
use act_web_server_rs.Migration.Serve.{serve_direct_iff}
use act_web_server_rs.Tests.Bearer.{known_actor, well_formed}
use act_web_server_rs.Tests.Fixture.{ports}
use act_web_server_rs.Tests.State.{store, features, state, headers, server, verifier, actor}

-- a schema that is its tables
abbrev Tables : Type 0
Tables = String → Option (List ColumnDef)

-- the small world's database has the table
abbrev tables : ports.World → Tables
tables w name = if name == "events" then some event_columns else none

abbrev event_row : List (String × String)
event_row = ("id", "1") ∷ ("payload_json", "{}") ∷ ("created_at", "2026-01-01") ∷ []

one_row :
    (columns : List ColumnDef) (rows : List ports.Row)
    → done (event_row ∷ []) ≡ done rows
    → (length rows ≤ max_direct_rows)
      × All (λ row. All (IsAnswered ports tables columns row) read_events.selected) rows
one_row columns [] e = absurd (ground arith)
one_row columns (row ∷ []) e =
    let same : event_row ≡ row = cc in
    rw (sym same) (
      omega arith,
      (
        (
          (λ column found full. ("1", refl)),
          ((λ column found full. ("{}", refl)), ((λ column found full. ("2026-01-01", refl)), tt)),
        ),
        tt,
      ),
    )
one_row columns (row ∷ other ∷ rows) e = absurd (ground arith)

answering : IsPostgres ports tables read_events
answering = record {
  answers = λ parameters columns transaction w rows migrated e. one_row columns rows e;
}

usual_actor : is_invalid_subject "actor-1" ≡ false
unfolding is_invalid_subject is_empty trim trim_start trim_end trim_last is_whitespace any_char
    is_control
usual_actor = refl

reviewed_role : has_suffix "_web_ro" store.expected_role ≡ true
unfolding has_suffix
reviewed_role = refl

events_for_subject_migrated_iff_example :
    (is_ok (events_for_subject ports store "actor-1" 0).0 ≡ true)
    ↔ IsServed ports tables store "actor-1" 0
events_for_subject_migrated_iff_example =
    events_for_subject_migrated_iff ports tables store "actor-1" 0 answering refl usual_actor
      reviewed_role

serve_direct_iff_example :
    ((serve ports features state (data_read "direct_read_only_database") headers server).0.status
      ≡ 200)
    ↔ IsServed ports tables store "actor-1" (verify ports verifier headers 0).1
serve_direct_iff_example =
    serve_direct_iff ports tables features state "direct_read_only_database" "Bearer token" headers
      server verifier actor store 63 refl known_actor refl refl well_formed refl refl reviewed_role
      usual_actor answering refl
