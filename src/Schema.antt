-- ===== src/Schema.antt =====
-- The schema of the database: app/migrations/versions, which make it in steps, and the tables that
-- app/infrastructure/database/models.py declares. What `alembic.op` does to the database is a
-- parameter.
pub mod Revisions
pub mod Models
pub mod Migrated
pub mod Widened
pub mod Undone
mod Examples
pub mod Tables
pub mod Effects
pub mod Rules
use file_extractor.Base.{ℕ, String, Bool, true, false, Option, none, some, List, []}
use file_extractor.Base.Exec.{Exec}

-- The column types that are used: `UUID(as_uuid=True)`, `String(n)`, `Text()`, `Integer()`,
-- `BigInteger()` and `DateTime(timezone=True)`.
pub data ColumnType : Type 0 where
  uuid text integer big_integer date_time : ColumnType
  string : ℕ → ColumnType

-- `sa.Column`, without `autoincrement`, which a primary key of integers has anyway. A default of the
-- server is kept as its SQL, and `references` is the table and the column of a foreign key.
pub record Column : Type 0 where
  pub name : String
  pub type : ColumnType
  pub nullable : Bool
  pub primary_key : Bool
  pub server_default : Option String
  pub references : Option (String × String)

-- The columns of a table, and its `UniqueConstraint`s by their names.
pub record Table : Type 0 where
  pub columns : List Column
  pub unique : List (String × List String)

-- Columns with few arguments: a primary key is not nullable.
abbrev pub key_column : String → ColumnType → Column
key_column name type = record {
  name = name;
  type = type;
  nullable = false;
  primary_key = true;
  server_default = none;
  references = none;
}

abbrev pub column : String → ColumnType → Bool → Column
column name type nullable = record {
  name = name;
  type = type;
  nullable = nullable;
  primary_key = false;
  server_default = none;
  references = none;
}

abbrev pub default_column : String → ColumnType → String → Column
default_column name type sql = record (column name type false) { server_default = some sql }

-- `op` of alembic, on the database.
pub record Op : Type 1 where
  pub State : Type 0
  pub create_table : String → Table → Exec State (Unit {0})
  pub drop_table : String → Exec State (Unit {0})
  pub add_column : String → Column → Exec State (Unit {0})
  pub drop_column : String → String → Exec State (Unit {0})
