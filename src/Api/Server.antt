-- ===== src/Api/Server.antt =====
-- services/api/src/main.rs: the router, on requests whose bodies axum has read.
pub mod Served
pub mod Makes
pub mod Requests
pub mod Interleaving
pub mod Stored
pub mod Bound
use nyrex.Prelude.{ℕ, String, Bool, true, false, Option, List, Result, ok, err}
use nyrex.Core.Models.{
  Uuid, Note, VaultEntry, RegisterRequest, LoginRequest, RefreshRequest, AuthResponse,
}
use nyrex.Effect.Program.{Program, done, ◌>>=◌}
use nyrex.Effect.Handler.{Handler}
use nyrex.Sync.{SyncResult}
use nyrex.Api.Libraries.{Libraries}
use nyrex.Api.Response.{AppState, Rejection, StatusCode}
use nyrex.Api.Middleware.{AuthUser, require_auth}
use nyrex.Api.Routes.Auth.{register, login, refresh}
use nyrex.Api.Routes.Sync.{sync_notes, upload_vault_entry}

-- The routes, with the bodies that their handlers take.
pub data Call : Type 0 where
  get_health : Call
  post_register : RegisterRequest → Call
  post_login : LoginRequest → Call
  post_refresh : RefreshRequest → Call
  get_me : Call
  post_sync_notes : List Note → Call
  post_sync_vault_entries : VaultEntry → Call

abbrev pub path : Call → String
path get_health = "/health"
path (post_register _) = "/auth/register"
path (post_login _) = "/auth/login"
path (post_refresh _) = "/auth/refresh"
path get_me = "/me"
path (post_sync_notes _) = "/sync/notes"
path (post_sync_vault_entries _) = "/sync/vault_entries"

-- The routes with the layer `require_auth`.
abbrev pub is_protected : Call → Bool
is_protected get_health = false
is_protected (post_register _) = false
is_protected (post_login _) = false
is_protected (post_refresh _) = false
is_protected get_me = true
is_protected (post_sync_notes _) = true
is_protected (post_sync_vault_entries _) = true

pub data Answer : Type 0 where
  text : String → Answer
  session_opened : StatusCode → AuthResponse → Answer
  rejected : Rejection → Answer
  identity : String → Answer
  notes_synced : List (SyncResult Note) → Answer
  vault_entry_synced : SyncResult Uuid → Answer

-- The answer of a public route.
abbrev pub answered : Result (StatusCode × AuthResponse) Rejection → Answer
answered (ok (status, response)) = session_opened status response
answered (err e) = rejected e

-- The answer of a protected route.
abbrev pub guarded : Result Answer Rejection → Answer
guarded (ok answer) = answer
guarded (err e) = rejected e

abbrev pub health_check : Program Answer
health_check = done (text "Ok")

module _ (L : Libraries) (state : AppState) (overflow_checks : Bool) where
  abbrev pub me : AuthUser → Program Answer
  me auth_user = done (identity (L.uuid_to_string auth_user.user_id))

  abbrev pub protected : Option String → (AuthUser → Program Answer) → Program Answer
  protected header next = require_auth L state next header >>= λ r. done (guarded r)

  abbrev pub public : Handler (StatusCode × AuthResponse) Rejection → Program Answer
  public handler = handler >>= λ r. done (answered r)

  abbrev pub synced : List Note → AuthUser → Program Answer
  synced client_notes user =
      sync_notes overflow_checks user client_notes >>= λ rs. done (notes_synced rs)

  abbrev pub attached : VaultEntry → AuthUser → Program Answer
  attached entry user = upload_vault_entry user entry >>= λ r. done (vault_entry_synced r)

  -- The handler of each route, on the value of the header `Authorization`.
  unfoldable pub serve : Option String → Call → Program Answer
  serve header get_health = health_check
  serve header (post_register body) = public (register L state body)
  serve header (post_login body) = public (login L state body)
  serve header (post_refresh body) = public (refresh L state body)
  serve header get_me = protected header me
  serve header (post_sync_notes client_notes) = protected header (synced client_notes)
  serve header (post_sync_vault_entries entry) = protected header (attached entry)
