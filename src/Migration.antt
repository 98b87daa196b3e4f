-- ===== src/Migration.antt =====
-- migration/src/lib.rs and migration/src/m20240101_000001_create_events_table.rs: the one table of the
-- database. The crate `sea_orm_migration` is the parameter `SchemaManager`.
pub mod Query
pub mod Reads
pub mod Serve
use act_web_server_rs.Common.{String, Bool, true, false, Option, none, some, List, [], ◌∷◌}

-- the types of columns that the migration names
pub data ColumnType : Type 0 where
  uuid string json_binary timestamp_with_time_zone : ColumnType

-- `Expr::current_timestamp()`
pub data DefaultExpr : Type 0 where
  current_timestamp : DefaultExpr

pub record ColumnDef : Type 0 where
  pub name : String
  pub column_type : ColumnType
  pub not_null : Bool
  pub primary_key : Bool
  pub default : Option DefaultExpr

pub record TableCreateStatement : Type 0 where
  pub table_name : String
  pub if_not_exists : Bool
  pub columns : List ColumnDef

-- `create_table` and `drop_table` of the crate; `none` is a `DbErr`
pub record SchemaManager (World : Type 0) : Type 0 where
  pub create_table : TableCreateStatement → World → Option (Unit {0}) × World
  pub drop_table : String → World → Option (Unit {0}) × World

-- `Events`
pub data Events : Type 0 where
  table id subject payload created_at : Events

-- `DeriveIden`
unfoldable pub iden : Events → String
iden table = "events"
iden id = "id"
iden subject = "subject"
iden payload = "payload"
iden created_at = "created_at"

-- `ColumnDef::new`
abbrev column : Events → ColumnType → ColumnDef
column event column_type = record {
  name = iden event;
  column_type = column_type;
  not_null = false;
  primary_key = false;
  default = none;
}

-- the columns of the statement
unfoldable pub event_columns : List ColumnDef
unfolding iden
event_columns =
    record (column id uuid) { not_null = true; primary_key = true }
    ∷ record (column subject string) { not_null = true }
    ∷ record (column payload json_binary) { not_null = true }
    ∷ record (column created_at timestamp_with_time_zone) {
      not_null = true;
      default = some current_timestamp;
    }
    ∷ []

unfoldable pub create_events : TableCreateStatement
unfolding event_columns
create_events = record { table_name = iden table; if_not_exists = true; columns = event_columns }

-- one migration: its name and its two directions
pub record MigrationTrait (World : Type 0) : Type 0 where
  pub migration_name : String
  pub up : World → Option (Unit {0}) × World
  pub down : World → Option (Unit {0}) × World

module _ {World : Type 0} (manager : SchemaManager World) where
  -- `up`
  unfoldable pub up : World → Option (Unit {0}) × World
  unfolding create_events
  up w = manager.create_table create_events w

  -- `down`
  unfoldable pub down : World → Option (Unit {0}) × World
  unfolding iden
  down w = manager.drop_table (iden table) w

  -- `Migrator::migrations`
  unfoldable pub migrations : List (MigrationTrait World)
  unfolding up down
  migrations =
      record { migration_name = "m20240101_000001_create_events_table"; up = up; down = down } ∷ []
