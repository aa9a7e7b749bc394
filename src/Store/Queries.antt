-- ===== src/Store/Queries.antt =====
-- The SQL texts of crates/store/src/pg and services/api/src/routes/sync.rs, as what they say of the
-- columns: the names, the Rust types of what is bound to them or compared with them, and the fields
-- that their rows are read into. What the statements do is in Store.Notes, Store.Auth and
-- Api.Routes.Sync.
pub mod Typing
use nyrex.Prelude.{String, Option, none, some, List, [], ◌∷◌}
use nyrex.Store.Schema.{
  RustType, id_type, string, bytes, i32, bool_type, date_time, strings, option_of, Field,
}

-- A column and what is bound to it; nothing for `IS NULL`.
abbrev pub Bound : Type 0
Bound = String × Option RustType

pub data Query : Type 0 where
  -- the table, the columns of the condition and of ORDER BY, and the fields that `*` is read into
  select : String → List Bound → List Field → Query
  -- the table, the columns that are given, those of ON CONFLICT … SET, and the fields of RETURNING *
  insert : String → List Bound → List Bound → List Field → Query
  -- the table, the columns of SET, those of the condition, and the fields of RETURNING *
  update : String → List Bound → List Bound → List Field → Query

abbrev pub user_fields : List Field
user_fields =
    ("id", id_type)
    ∷ ("email", string)
    ∷ ("password_hash", string)
    ∷ ("display_name", option_of string)
    ∷ ("sso_provider", option_of string)
    ∷ ("sso_sub", option_of string)
    ∷ ("created_at", date_time)
    ∷ ("updated_at", date_time)
    ∷ []

abbrev pub refresh_token_fields : List Field
refresh_token_fields =
    ("id", id_type)
    ∷ ("user_id", id_type)
    ∷ ("token_hash", string)
    ∷ ("expires_at", date_time)
    ∷ ("revoked", bool_type)
    ∷ ("created_at", date_time)
    ∷ []

abbrev pub note_fields : List Field
note_fields =
    ("id", id_type)
    ∷ ("user_id", id_type)
    ∷ ("title_cipher", bytes)
    ∷ ("content_cipher", bytes)
    ∷ ("nonce", bytes)
    ∷ ("version", i32)
    ∷ ("format", string)
    ∷ ("tags", strings)
    ∷ ("created_at", date_time)
    ∷ ("updated_at", date_time)
    ∷ ("deleted_at", option_of date_time)
    ∷ []

abbrev pub vault_entry_fields : List Field
vault_entry_fields =
    ("id", id_type)
    ∷ ("note_id", id_type)
    ∷ ("user_id", id_type)
    ∷ ("file_cipher", bytes)
    ∷ ("nonce", bytes)
    ∷ ("mime_type", option_of string)
    ∷ ("file_size", i32)
    ∷ ("created_at", date_time)
    ∷ []

abbrev to : String → RustType → Bound
to name t = (name, some t)

abbrev pub get_note_query : Query
get_note_query =
    select "notes" (to "user_id" id_type ∷ to "id" id_type ∷ ("deleted_at", none) ∷ []) note_fields

abbrev pub list_notes_query : Query
list_notes_query =
    select "notes" (to "user_id" id_type ∷ ("deleted_at", none) ∷ ("updated_at", none) ∷ [])
      note_fields

abbrev pub create_note_query : Query
create_note_query =
    insert "notes"
      (to "id" id_type
        ∷ to "user_id" id_type
        ∷ to "title_cipher" bytes
        ∷ to "content_cipher" bytes
        ∷ to "nonce" bytes
        ∷ to "version" i32
        ∷ to "format" string
        ∷ to "tags" strings
        ∷ to "created_at" date_time
        ∷ to "updated_at" date_time
        ∷ [])
      [] note_fields

abbrev pub update_note_query : Query
update_note_query =
    update "notes"
      (to "title_cipher" bytes
        ∷ to "content_cipher" bytes
        ∷ to "nonce" bytes
        ∷ to "version" i32
        ∷ to "format" string
        ∷ to "tags" strings
        ∷ to "updated_at" date_time
        ∷ [])
      (to "id" id_type ∷ to "user_id" id_type ∷ []) note_fields

abbrev pub delete_note_query : Query
delete_note_query =
    update "notes" (to "deleted_at" date_time ∷ []) (to "id" id_type ∷ to "user_id" id_type ∷ []) []

abbrev pub create_user_query : Query
create_user_query =
    insert "users"
      (to "id" id_type
        ∷ to "email" string
        ∷ to "password_hash" string
        ∷ to "display_name" (option_of string)
        ∷ to "created_at" date_time
        ∷ to "updated_at" date_time
        ∷ [])
      [] user_fields

abbrev pub get_user_by_email_query : Query
get_user_by_email_query = select "users" (to "email" string ∷ []) user_fields

abbrev pub store_refresh_token_query : Query
store_refresh_token_query =
    insert "refresh_tokens"
      (to "id" id_type
        ∷ to "user_id" id_type
        ∷ to "token_hash" string
        ∷ to "expires_at" date_time
        ∷ to "revoked" bool_type
        ∷ to "created_at" date_time
        ∷ [])
      [] []

abbrev pub get_valid_refresh_token_query : Query
get_valid_refresh_token_query =
    select "refresh_tokens"
      (to "token_hash" string ∷ to "revoked" bool_type ∷ to "expires_at" date_time ∷ [])
      refresh_token_fields

abbrev pub revoke_refresh_token_query : Query
revoke_refresh_token_query =
    update "refresh_tokens" (to "revoked" bool_type ∷ []) (to "id" id_type ∷ []) []

abbrev pub revoke_all_user_tokens_query : Query
revoke_all_user_tokens_query =
    update "refresh_tokens" (to "revoked" bool_type ∷ []) (to "user_id" id_type ∷ []) []

abbrev pub select_note_query : Query
select_note_query = select "notes" (to "id" id_type ∷ to "user_id" id_type ∷ []) note_fields

abbrev pub upsert_note_query : Query
upsert_note_query =
    insert "notes"
      (to "id" id_type
        ∷ to "user_id" id_type
        ∷ to "title_cipher" bytes
        ∷ to "content_cipher" bytes
        ∷ to "nonce" bytes
        ∷ to "version" i32
        ∷ to "updated_at" date_time
        ∷ [])
      (to "title_cipher" bytes
        ∷ to "content_cipher" bytes
        ∷ to "nonce" bytes
        ∷ to "version" i32
        ∷ to "updated_at" date_time
        ∷ [])
      []

abbrev pub upload_vault_entry_query : Query
upload_vault_entry_query =
    insert "vault_entries"
      (to "id" id_type
        ∷ to "note_id" id_type
        ∷ to "user_id" id_type
        ∷ to "file_cipher" bytes
        ∷ to "nonce" bytes
        ∷ to "mime_type" (option_of string)
        ∷ to "file_size" i32
        ∷ [])
      [] []
