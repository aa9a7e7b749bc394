-- ===== src/Store/Schema.antt =====
-- The columns of a table, as the statements of crates/store/migrations declare them, and what sqlx
-- reads from them and binds to them: the fields of the structures of crates/core/src/models/mod.rs
-- and the values of the queries. Which Rust type goes with which type of PostgreSQL is what sqlx
-- documents.
use nyrex.Prelude.{ℕ, String, Bool, true, false, Option, none, some, List, [], ◌∷◌, if◌then◌else◌}
use nyrex.Prelude.Text.{str_eq}

pub data SqlType : Type 0 where
  uuid text bytea integer boolean timestamptz text_array bigserial jsonb : SqlType
  varchar : ℕ → SqlType

pub data Key : Type 0 where
  plain primary_key unique : Key
  references : String → Key

pub record Column : Type 0 where
  pub name : String
  pub type : SqlType
  pub not_null : Bool
  -- the text of the default
  pub default : Option String
  pub key : Key

abbrev pub Columns : Type 0
Columns = List Column

-- `name TYPE`, `name TYPE NOT NULL`, `name TYPE NOT NULL DEFAULT …`, and the columns of keys.
abbrev pub nullable : String → SqlType → Column
nullable name type = record {
  name = name;
  type = type;
  not_null = false;
  default = none;
  key = plain;
}

abbrev pub required : String → SqlType → Column
required name type = record {
  name = name;
  type = type;
  not_null = true;
  default = none;
  key = plain;
}

abbrev pub defaulted : String → SqlType → String → Column
defaulted name type expression = record {
  name = name;
  type = type;
  not_null = true;
  default = some expression;
  key = plain;
}

abbrev pub identified : SqlType → Column
identified type = record {
  name = "id";
  type = type;
  not_null = true;
  default = none;
  key = primary_key;
}

abbrev pub referring : String → String → Column
referring name table = record {
  name = name;
  type = uuid;
  not_null = true;
  default = none;
  key = references table;
}

abbrev pub column : String → Columns → Option Column
column name [] = none
column name (c ∷ cs) = if str_eq c.name name then some c else column name cs

-- The types of fields and of values, `NOW()` and literals included.
pub data RustType : Type 0 where
  id_type string bytes i32 bool_type date_time strings : RustType
  option_of : RustType → RustType

-- The type of a field of the structures fits that of a column.
abbrev pub fits : RustType → SqlType → Bool
fits id_type uuid = true
fits string text = true
fits string (varchar n) = true
fits bytes bytea = true
fits i32 integer = true
fits bool_type boolean = true
fits date_time timestamptz = true
fits strings text_array = true
fits (option_of t) s = fits t s
fits _ _ = false

abbrev pub is_option : RustType → Bool
is_option (option_of t) = true
is_option _ = false

abbrev pub Field : Type 0
Field = String × RustType
