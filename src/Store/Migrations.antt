-- ===== src/Store/Migrations.antt =====
-- crates/store/migrations: what the three files ask of the tables and their columns. Indexes are left
-- out; the constraints, as conditions on rows, are in Effect.Table. PostgreSQL, which runs the
-- statements, is a parameter.
pub mod Outcome
use nyrex.Prelude.{
  ◌≡◌, String, Bool, true, false, ◌&&◌, ◌||◌, Option, none, some, List, [], ◌∷◌, ◌++◌, filter, not,
  any, In,
}
use mathlib.Core.Option.{map}
use nyrex.Prelude.Text.{str_eq}
use nyrex.Store.Schema.{
  SqlType, uuid, text, bytea, integer, boolean, timestamptz, text_array, bigserial, jsonb, varchar,
  Key, primary_key, references, unique, Column, Columns, fits, id_type, nullable, required,
  defaulted, identified, referring,
}

-- A table: its columns, and whether it has no rows.
pub record Table : Type 0 where
  pub columns : Columns
  pub is_empty : Bool

-- A statement of the migrations. An ALTER TABLE with two kinds of actions is two statements.
pub data Statement : Type 0 where
  create_table_if_not_exists : String → Columns → Statement
  drop_columns_if_exist : String → List String → Statement
  add_columns : String → Columns → Statement

abbrev email : Column
email = record (required "email" (varchar 255)) { key = unique }

abbrev now : String → Column
now name = defaulted name timestamptz "NOW()"

-- `id BIGSERIAL PRIMARY KEY`, whose default is the next value of its sequence.
abbrev serial_id : Column
serial_id = record (identified bigserial) { default = some "nextval('sync_events_id_seq')" }

-- 202604170001_initial_schema.sql
abbrev pub initial_schema : List Statement
initial_schema =
    create_table_if_not_exists "users" (
      identified uuid
      ∷ email
      ∷ nullable "display_name" (varchar 255)
      ∷ nullable "sso_provider" (varchar 50)
      ∷ nullable "sso_sub" (varchar 255)
      ∷ now "created_at"
      ∷ now "updated_at"
      ∷ [])
    ∷ create_table_if_not_exists "notes" (
        identified uuid
        ∷ referring "user_id" "users"
        ∷ required "title" text
        ∷ required "content" text
        ∷ defaulted "format" (varchar 20) "'markdown'"
        ∷ defaulted "tags" text_array "'{}'"
        ∷ defaulted "is_encrypted" boolean "false"
        ∷ now "created_at"
        ∷ now "updated_at"
        ∷ nullable "deleted_at" timestamptz
        ∷ [])
    ∷ create_table_if_not_exists "vault_entries" (
        identified uuid
        ∷ referring "user_id" "users"
        ∷ required "ciphertext" bytea
        ∷ required "nonce" bytea
        ∷ nullable "hint" text
        ∷ now "created_at"
        ∷ now "updated_at"
        ∷ nullable "deleted_at" timestamptz
        ∷ [])
    ∷ create_table_if_not_exists "sync_events" (
        serial_id
        ∷ referring "user_id" "users"
        ∷ required "entity_type" (varchar 50)
        ∷ required "entity_id" uuid
        ∷ required "operation" (varchar 20)
        ∷ nullable "payload" jsonb
        ∷ required "client_id" (varchar 100)
        ∷ now "created_at"
        ∷ [])
    ∷ []

-- 202604170002_auth.sql
abbrev pub auth : List Statement
auth =
    add_columns "users" (defaulted "password_hash" text "''" ∷ [])
    ∷ create_table_if_not_exists "refresh_tokens" (
        identified uuid
        ∷ referring "user_id" "users"
        ∷ required "token_hash" text
        ∷ required "expires_at" timestamptz
        ∷ defaulted "revoked" boolean "false"
        ∷ now "created_at"
        ∷ [])
    ∷ []

-- What 202604170003_secure_sync_v2.sql creates the table vault_entries with, if there is none.
abbrev pub attachment_columns : Columns
attachment_columns =
    identified uuid
    ∷ referring "note_id" "notes"
    ∷ referring "user_id" "users"
    ∷ required "file_cipher" bytea
    ∷ required "nonce" bytea
    ∷ nullable "mime_type" (varchar 100)
    ∷ required "file_size" integer
    ∷ now "created_at"
    ∷ []

-- 202604170003_secure_sync_v2.sql
abbrev pub secure_sync_v2 : List Statement
secure_sync_v2 =
    drop_columns_if_exist "notes" ("title" ∷ "content" ∷ [])
    ∷ add_columns "notes" (
        required "title_cipher" bytea
        ∷ required "content_cipher" bytea
        ∷ required "nonce" bytea
        ∷ defaulted "version" integer "1"
        ∷ [])
    ∷ create_table_if_not_exists "vault_entries" attachment_columns
    ∷ []

-- The statements of all migrations, in the order of their files.
abbrev pub all_migrations : List Statement
all_migrations = initial_schema ++ (auth ++ secure_sync_v2)

-- CREATE TABLE IF NOT EXISTS
abbrev or_new : Columns → Option Table → Option Table
or_new cs none = some (record { columns = cs; is_empty = true })
or_new cs (some t) = some t

abbrev with_columns : (Columns → Columns) → Option Table → Option Table
with_columns f o = map {A = Table} (λ t. record t { columns = f t.columns }) o

abbrev without : List String → Columns → Columns
without names old = filter (λ c. not (any (str_eq c.name) names)) old

abbrev at : Bool → (Option Table → Option Table) → Option Table → Option Table
at true f o = f o
at false f o = o

-- What PostgreSQL documents of a statement: the table `v` after it.
abbrev pub effect : String → Statement → Option Table → Option Table
effect v (create_table_if_not_exists name cs) o = at (str_eq name v) (or_new cs) o
effect v (drop_columns_if_exist name cs) o = at (str_eq name v) (with_columns (without cs)) o
effect v (add_columns name cs) o = at (str_eq name v) (with_columns (λ old. old ++ cs)) o

abbrev has_default : Column → Bool
has_default c = elim c.default [ none ↦ false | some _ ↦ true ]

-- Columns can be added if their names are new, and those that are NOT NULL without a default if there
-- are no rows.
abbrev pub can_add : Columns → Table → Bool
can_add cs t =
    not (any (λ c. any (λ (new : Column). str_eq c.name new.name) cs) t.columns)
    && (t.is_empty || not (any (λ c. c.not_null && not (has_default c)) cs))

abbrev is_primary : Key → Bool
is_primary primary_key = true
is_primary _ = false

-- The table has a primary key `id` of the type UUID, which a column of that type can refer to.
abbrev is_target : Option Table → Bool
is_target none = false
is_target (some t) =
    any (λ c. str_eq c.name "id" && (is_primary c.key && fits id_type c.type)) t.columns

abbrev target_exists : (String → Option Table) → Column → Key → Bool
target_exists l c (references table) = fits id_type c.type && is_target (l table)
target_exists l c _ = true

-- Every table that the columns refer to is there.
abbrev pub can_refer : (String → Option Table) → Columns → Bool
can_refer l [] = true
can_refer l (c ∷ cs) = target_exists l c c.key && can_refer l cs

-- No two columns have the same name.
abbrev pub is_distinct : Columns → Bool
is_distinct [] = true
is_distinct (c ∷ cs) = not (any (λ (other : Column). str_eq other.name c.name) cs) && is_distinct cs

-- A statement can run on the tables `l`: a new table has columns with different names, what it refers
-- to is there before it, and an alteration needs its table.
abbrev pub CanRun : (String → Option Table) → Statement → Type 0
CanRun l (create_table_if_not_exists name cs) = (is_distinct cs && can_refer l cs) ≡ true
CanRun l (drop_columns_if_exist name cs) = (t : Table) × (l name ≡ some t)
CanRun l (add_columns name cs) =
    (t : Table) × (l name ≡ some t) × ((can_add cs t && (is_distinct cs && can_refer l cs)) ≡ true)

module _ {Database : Type 0} (tables : Database → String → Option Table)
    (run : Statement → Database → Option Database) where
  -- The database carries out a statement of the migrations that can run as PostgreSQL documents it.
  abbrev pub IsDocumented : Type 0
  IsDocumented =
      (q : Statement) (d : Database)
      → In q all_migrations
      → CanRun (tables d) q
      → (d' : Database) × (run q d ≡ some d')
        × ((v : String) → tables d' v ≡ effect v q (tables d v))

module _ {Database : Type 0} (run : Statement → Database → Option Database) where
  unfoldable pub run_all : List Statement → Database → Option Database
  run_all [] d = some d
  run_all (q ∷ qs) d = elim (run q d) [ none ↦ none | some d' ↦ run_all qs d' ]

  unfoldable pub migrate : Database → Option Database
  unfolding run_all
  migrate = run_all all_migrations
