-- ===== src/Store/Auth.antt =====
-- crates/store/src/pg/auth.rs: `PgAuthStore`.
pub mod Laws
pub mod Spec
pub mod Directory
pub mod Refinement
use nyrex.Prelude.{String, ◌<>◌, Option, none, true, ◌&&◌, not, ◌==◌, ltb, if◌then◌else◌}
use nyrex.Prelude.Text.{str_eq, contains}
use nyrex.Core.Error.{CoreError, conflict, database}
use nyrex.Core.Models.{Uuid, User, RefreshToken}
use nyrex.Effect.Statement.{select, insert, update, DbError}
use nyrex.Effect.Table.{users, refresh_tokens}
use nyrex.Effect.Program.{fetch_optional, fetch_one, execute}
use nyrex.Effect.Handler.{Handler, mapping_err}

-- The error of `create_user`, from the text of the database's.
abbrev pub create_user_error : String → DbError → CoreError
create_user_error email e =
    if contains e "duplicate key"
    then conflict ("User with email '" <> (email <> "' already exists"))
    else database e

-- The columns of single sign-on are not in the statement, so they are NULL.
unfoldable pub create_user : Uuid → String → String → Option String → Handler User CoreError
create_user id email password_hash display_name = mapping_err (create_user_error email) (
    fetch_one users (
      insert λ now. record {
        id = id;
        email = email;
        password_hash = password_hash;
        display_name = display_name;
        sso_provider = none;
        sso_sub = none;
        created_at = now;
        updated_at = now;
      }))

unfoldable pub get_user_by_email : String → Handler (Option User) CoreError
get_user_by_email email =
    mapping_err database (fetch_optional users (select λ _ u. str_eq u.email email))

unfoldable pub store_refresh_token : RefreshToken → Handler (Unit {0}) CoreError
store_refresh_token token = mapping_err database (execute refresh_tokens (insert λ _. token))

unfoldable pub get_valid_refresh_token : String → Handler (Option RefreshToken) CoreError
get_valid_refresh_token token_hash = mapping_err database (
    fetch_optional refresh_tokens
      (select λ now r. str_eq r.token_hash token_hash && (not r.revoked && ltb now r.expires_at)))

abbrev pub revoke : RefreshToken → RefreshToken
revoke r = record r { revoked = true }

unfoldable pub revoke_refresh_token : Uuid → Handler (Unit {0}) CoreError
revoke_refresh_token token_id =
    mapping_err database (execute refresh_tokens (update (λ r. r.id == token_id) (λ _. revoke)))

unfoldable pub revoke_all_user_tokens : Uuid → Handler (Unit {0}) CoreError
revoke_all_user_tokens user_id =
    mapping_err database (execute refresh_tokens (update (λ r. r.user_id == user_id) (λ _. revoke)))
