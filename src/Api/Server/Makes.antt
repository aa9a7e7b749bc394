-- ===== src/Api/Server/Makes.antt =====
-- services/api/src/main.rs: every SQL statement that the server makes for a request, as the handlers
-- and the stores put them together.
use nyrex.Prelude.{◌≡◌, String, Bool, not, ◌&&◌, ◌==◌, ltb, Option, none, some, List, In, ok}
use nyrex.Prelude.Text.{str_eq}
use nyrex.Core.Models.{Uuid, DateTime, Note, VaultEntry, RegisterRequest, RefreshRequest}
use nyrex.Effect.Table.{Table, users, refresh_tokens, notes, vault_entries}
use nyrex.Effect.Statement.{Statement, select, insert, update}
use nyrex.Store.Auth.{revoke}
use nyrex.Sync.{success, reconcile_note}
use nyrex.Api.Libraries.{Libraries}
use nyrex.Api.AuthUtils.{hash_token}
use nyrex.Api.Middleware.{AuthUser}
use nyrex.Api.Routes.Auth.{refresh_record}
use nyrex.Api.Routes.Sync.{select_note, upsert_note}
use nyrex.Api.Server.{Call, post_register, post_refresh, post_sync_notes, post_sync_vault_entries}

pub data Makes (L : Libraries) (checks : Bool) : Call → (t : Table) → Statement t → Type 0 where
  finds_user :
      {call : Call} (email : String)
      → Makes L checks call users (select λ _ u. str_eq u.email email)
  adds_user :
      {body : RegisterRequest} (id : Uuid) (salt hash : String)
      → L.argon2_hash_password body.password salt ≡ ok hash
      → Makes L checks (post_register body) users (
          insert λ now. record {
            id = id;
            email = body.email;
            password_hash = hash;
            display_name = body.display_name;
            sso_provider = none;
            sso_sub = none;
            created_at = now;
            updated_at = now;
          })
  finds_token :
      {body : RefreshRequest}
      → Makes L checks (post_refresh body) refresh_tokens (
          select λ now r.
            str_eq r.token_hash (hash_token L body.refresh_token)
            && (not r.revoked && ltb now r.expires_at))
  revokes_token :
      {body : RefreshRequest} (token_id : Uuid)
      → Makes L checks
          (post_refresh body)
          refresh_tokens
          (update (λ r. r.id == token_id) (λ _. revoke))
  -- The token is the text of a generated identifier.
  adds_token :
      {call : Call} (id user_id raw : Uuid) (now : DateTime)
      → Makes L checks call refresh_tokens
          (insert λ _. refresh_record L id user_id (hash_token L (L.uuid_to_string raw)) now)
  finds_note :
      {client_notes : List Note} (session : AuthUser) (note : Note)
      → Makes L checks (post_sync_notes client_notes) notes (select_note session note)
  pushes_note :
      {client_notes : List Note} (note : Note) (found : Option Note) (updated : Note)
      → In note client_notes
      → reconcile_note checks note found ≡ some (success updated)
      → Makes L checks (post_sync_notes client_notes) notes (upsert_note updated)
  adds_entry :
      {entry : VaultEntry}
      → Makes L checks
          (post_sync_vault_entries entry)
          vault_entries
          (insert λ now. record entry { created_at = now })
