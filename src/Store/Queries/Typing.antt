-- ===== src/Store/Queries/Typing.antt =====
-- The SQL texts of the server against the tables that the migrations leave: what PostgreSQL and sqlx
-- object to in a query.
use nyrex.Prelude.{
  ◌≡◌, refl, String, Bool, true, false, ◌||◌, not, Option, none, some, List, [], ◌∷◌, ◌++◌, any,
  All, ◌&&◌,
}
use nyrex.Prelude.Text.{str_eq}
use nyrex.Store.Schema.{Column, Columns, column, RustType, fits, is_option, Field}
use nyrex.Store.Queries.{
  Bound, Query, select, insert, update, get_note_query, list_notes_query, create_note_query,
  update_note_query, delete_note_query, create_user_query, get_user_by_email_query,
  store_refresh_token_query, get_valid_refresh_token_query, revoke_refresh_token_query,
  revoke_all_user_tokens_query, select_note_query, upsert_note_query, upload_vault_entry_query,
}
use nyrex.Store.Migrations.{Table, Statement, IsDocumented, migrate}
use nyrex.Store.Migrations.Outcome.{Migrated, migrate-Migrated}

pub data Objection : Type 0 where
  no_table unknown_column wrong_type null_value missing_value : String → Objection

abbrev pub one_if : Bool → Objection → List Objection
one_if true o = o ∷ []
one_if false o = []

-- A value of the type goes into the column, or is compared with it.
abbrev value : String → Option RustType → Option Column → List Objection
value name t none = unknown_column name ∷ []
value name none (some c) = []
value name (some t) (some c) =
    one_if (not (fits t c.type)) (wrong_type name)
    ++ one_if (c.not_null && is_option t) (null_value name)

abbrev values : Columns → List Bound → List Objection
values cs [] = []
values cs ((name, t) ∷ bound) = value name t (column name cs) ++ values cs bound

-- The column is read into a field of the type.
abbrev read : String → RustType → Option Column → List Objection
read name t none = unknown_column name ∷ []
read name t (some c) =
    one_if (not (fits t c.type)) (wrong_type name)
    ++ one_if (not (c.not_null || is_option t)) (null_value name)

abbrev reads : Columns → List Field → List Objection
reads cs [] = []
reads cs ((name, t) ∷ fields) = read name t (column name cs) ++ reads cs fields

abbrev has_default : Column → Bool
has_default c = elim c.default [ none ↦ false | some _ ↦ true ]

-- A row is inserted with the columns that are bound.
abbrev missing : Columns → List Bound → List Objection
missing [] bound = []
missing (c ∷ cs) bound =
    one_if
      (c.not_null && (not (has_default c) && not (any (λ (b : Bound). str_eq b.0 c.name) bound)))
      (missing_value c.name)
    ++ missing cs bound

abbrev in_table : String → (Columns → List Objection) → Option Table → List Objection
in_table name check none = no_table name ∷ []
in_table name check (some t) = check t.columns

-- All that is wrong with a query on the tables.
abbrev pub objections : (String → Option Table) → Query → List Objection
objections tables (select name condition fields) =
    in_table name (λ cs. values cs condition ++ reads cs fields) (tables name)
objections tables (insert name given overwritten fields) =
    in_table name
      (λ cs. values cs given ++ (values cs overwritten ++ (reads cs fields ++ missing cs given)))
      (tables name)
objections tables (update name set condition fields) =
    in_table name (λ cs. values cs set ++ (values cs condition ++ reads cs fields)) (tables name)

abbrev pub sound_queries : List Query
sound_queries =
    get_note_query ∷ list_notes_query ∷ create_note_query ∷ update_note_query ∷ delete_note_query
    ∷ create_user_query ∷ get_user_by_email_query ∷ store_refresh_token_query
    ∷ get_valid_refresh_token_query ∷ revoke_refresh_token_query ∷ revoke_all_user_tokens_query
    ∷ select_note_query ∷ upsert_note_query ∷ []

-- What is wrong with the INSERT of an upload.
abbrev pub upload_objections : List Objection
upload_objections =
    unknown_column "note_id"
    ∷ unknown_column "file_cipher"
    ∷ unknown_column "mime_type"
    ∷ unknown_column "file_size"
    ∷ missing_value "ciphertext"
    ∷ []

-- Every query but that of an upload is sound on the tables.
abbrev pub WellTyped : (String → Option Table) → Type 0
WellTyped tables =
    All (λ q. objections tables q ≡ []) sound_queries
    × (objections tables upload_vault_entry_query ≡ upload_objections)

Migrated-WellTyped : (tables : String → Option Table) → Migrated tables → WellTyped tables
Migrated-WellTyped tables (users, (notes, (tokens, entries))) =
    rw (users, notes, tokens, entries)
      (
        (
          refl,
          (
            refl,
            (
              refl,
              (refl, (refl, (refl, (refl, (refl, (refl, (refl, (refl, (refl, (refl, tt)))))))))),
            ),
          ),
        ),
        refl,
      )

-- On a database without tables that does what PostgreSQL documents, the migrations run to their end,
-- and on the tables they leave nothing is wrong with any query of the server but one: the tables and
-- columns are there, what is bound to a column and the field it is read into have its type, no
-- column that may be NULL is read into a field that is no Option, and an INSERT gives every column
-- that is NOT NULL without a default. The INSERT of an upload names four columns that are missing,
-- and gives no ciphertext, which the table wants.
pub migrate-WellTyped :
    {Database : Type 0} (tables : Database → String → Option Table)
    (run : Statement → Database → Option Database)
    → IsDocumented tables run
    → (d : Database) → ((v : String) → tables d v ≡ none)
    → (d' : Database) × (migrate run d ≡ some d') × WellTyped (tables d')
migrate-WellTyped tables run documented d fresh =
    let (d', e, migrated) = migrate-Migrated tables run documented d fresh in
    (d', e, Migrated-WellTyped (tables d') migrated)
