-- ===== src/Db.antt =====
-- src/db.rs: the read-only store. A store's errors are `anyhow` errors; its calls change the world.
pub mod Laws
pub mod Complete
use act_web_server_rs.Common.{
  ℕ, ◌<◌, String, Bool, true, false, Option, none, some, List, [], ◌∷◌, Result, ok, err, ok_or,
  fail_if, AnyError, bail, library, ◌&&◌, ◌||◌, ◌==◌, not, ltb, length,
}
use act_web_server_rs.Common.Outcome
use act_web_server_rs.Common.Effect.{Action, pure, lift, ◌>>=◌, ◌>>◌}
use act_web_server_rs.Common.Json.{Value, string, Items, nil, item, array, object, member, end}
use act_web_server_rs.Common.Text.{any_char, is_control, is_empty, trim, has_suffix}
use act_web_server_rs.Config.{DirectDatabaseConfig}
use act_web_server_rs.Ports.{Ports, Timed, elapsed, failed, done, read_only, ConnectOptions}
use Prim.Native.String.{len}

abbrev pub max_direct_rows : ℕ
max_direct_rows = 100

abbrev pub read_events_sql : String
read_events_sql =
    "SELECT id::text AS id, payload::text AS payload_json, created_at::text AS created_at FROM events WHERE subject = $1 ORDER BY created_at DESC LIMIT 100"

pub record DirectReadStore (p : Ports) : Type 0 where
  pub database : p.Database
  pub expected_role : String

pub record EventProjection : Type 0 where
  pub id : String
  pub payload : Value
  pub created_at : String

-- a call's outcome with the library's error, `?`
abbrev pub passed_on : {A : Type 0} → Option A → Result AnyError A
passed_on o = ok_or o library

-- `.map_err(|_| anyhow!("direct read timed out"))??`
abbrev pub timed_out_or : {A : Type 0} → Timed A → Result AnyError A
timed_out_or elapsed = err (bail "direct read timed out")
timed_out_or failed = err library
timed_out_or (done a) = ok a

-- the guard on the subject
unfoldable pub is_invalid_subject : String → Bool
is_invalid_subject subject =
    is_empty subject
    || ltb 256 (len subject)
    || not (trim subject == subject)
    || any_char is_control subject

module _ (p : Ports) where
  -- the closure that reads a row
  unfoldable pub projection_of : p.Row → Result AnyError EventProjection
  projection_of row = Outcome.◌>>=◌ (ok_or (p.try_get row "id") library) λ id.
      Outcome.◌>>=◌ (ok_or (p.try_get row "payload_json") library) λ text.
        Outcome.◌>>=◌ (ok_or (p.parse_json_text text) library) λ payload.
          Outcome.◌>>=◌ (ok_or (p.try_get row "created_at") library)
            λ created_at. ok (record { id = id; payload = payload; created_at = created_at })

  -- `rows.into_iter().map(…).collect::<Result<Vec<_>, _>>()`
  unfoldable pub projections_of : List p.Row → Result AnyError (List EventProjection)
  projections_of [] = ok []
  projections_of (row ∷ rows) =
      let rest = projections_of rows in
      Outcome.◌>>=◌ (projection_of row) λ e. Outcome.◌>>=◌ rest λ es. ok (e ∷ es)

  -- A call that reaches outside.
  abbrev pub outside :
      {R A : Type 0} → (R → Result AnyError A) → (p.World → R × p.World) → Action p.World AnyError A
  outside read call w = let (r, w') = call w in (read r, w')

  -- the function `connect`
  unfoldable pub connect : String → Action p.World AnyError p.Database
  connect url = outside passed_on (
      p.connect_database (record {
        url = url;
        max_connections = 10;
        min_connections = 1;
        connect_timeout = 5_000;
        sqlx_logging = false;
      }))

  -- `DirectReadStore::connect`
  unfoldable pub connect_store : DirectDatabaseConfig → Action p.World AnyError (DirectReadStore p)
  unfolding connect
  connect_store config = do
    database ← connect config.url
    answer ← outside passed_on (p.query_one database "SELECT current_user AS role_name")
    row ← lift (ok_or answer (bail "database role query returned no row"))
    role ← lift (ok_or (p.try_get row "role_name") library)
    lift (
        fail_if (not (role == config.expected_role) || not (has_suffix "_web_ro" role))
          (bail "database connection is not using the reviewed web read-only role"))
    pure (record { database = database; expected_role = config.expected_role })

  -- `events_for_subject`
  unfoldable pub events_for_subject :
      DirectReadStore p → String → Action p.World AnyError (List EventProjection)
  unfolding is_invalid_subject
  events_for_subject store subject = do
    lift (fail_if (is_invalid_subject subject) (bail "invalid actor subject"))
    lift (
        fail_if (not (has_suffix "_web_ro" store.expected_role))
          (bail "read-only role proof is invalid"))
    transaction ← outside passed_on (p.begin store.database read_only)
    rows ← outside timed_out_or (p.query_all transaction read_events_sql (subject ∷ []))
    lift (
        fail_if (ltb max_direct_rows (length rows))
          (bail "direct read exceeded the reviewed row bound"))
    projections ← lift (projections_of rows)
    outside passed_on (p.commit transaction)
    pure projections

-- `serde_json::to_value` of the projections, fields in camel case
unfoldable pub value_of_event : EventProjection → Value
value_of_event e = object (
    member "id" (string e.id)
      (member "payload" e.payload (member "createdAt" (string e.created_at) end)))

unfoldable pub items_of : List EventProjection → Items
items_of [] = nil
items_of (e ∷ es) = item (value_of_event e) (items_of es)

unfoldable pub value_of_events : List EventProjection → Value
unfolding items_of
value_of_events es = array (items_of es)
