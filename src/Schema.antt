-- ===== src/Schema.antt =====
-- The database schema: the operations of Alembic that the migrations use
-- (db/migrations/versions/), and the declarations of tables that they and the models share.
pub mod Migrations
pub mod Models
pub mod Downgrade
pub mod Drift
pub mod Environment
use hyperliquid_trading_aler.Prelude.{ℕ, String, Bool, Option, List, Result}

-- The column types of SQLAlchemy. An enum is a type of the database, known by its name.
pub data SqlType : Type 0 where
  uuid varchar text jsonb integer boolean datetime : SqlType
  numeric : ℕ → ℕ → SqlType
  enum : String → SqlType

-- `Column(...)`: a primary key is not nullable, any other column is unless it says so.
pub record Column : Type 0 where
  pub name : String
  pub type_ : SqlType
  pub nullable : Bool
  pub primary_key : Bool
  pub server_default : Option String

-- `ForeignKeyConstraint([column], [target], ondelete=...)`
pub record ForeignKey : Type 0 where
  pub column : String
  pub target : String
  pub ondelete : Option String

-- `UniqueConstraint(..., name=...)`
pub record Unique : Type 0 where
  pub name : String
  pub columns : List String

pub record Table : Type 0 where
  pub name : String
  pub columns : List Column
  pub foreign_keys : List ForeignKey
  pub uniques : List Unique

-- What an index is made of: a column, or an SQL expression.
pub data IndexKey : Type 0 where
  key expression : String → IndexKey

-- The calls of `op`. The first is the `DO` block that ignores `duplicate_object`.
pub data Operation : Type 0 where
  create_type_if_missing : String → List String → Operation
  drop_type_if_exists : String → Operation
  add_value_if_missing : String → String → Operation
  create_table : Table → Operation
  drop_table : String → Operation
  create_unique_constraint : String → String → List String → Operation
  drop_constraint : String → String → Operation
  create_index : String → String → List IndexKey → Option String → Operation
  drop_index : String → String → Operation

-- A file of db/migrations/versions/.
pub record Revision : Type 0 where
  pub revision : String
  pub down_revision : Option String
  pub upgrade : List Operation
  pub downgrade : List Operation

-- The database server: its catalogue, what an operation does to it, and whether it has a type.
pub record Server : Type 1 where
  pub Catalogue : Type 0
  pub run : Operation → Catalogue → Result Catalogue
  pub has_type : String → Catalogue → Bool
