-- ===== src/Api/Server/Requests.antt =====
-- services/api/src/main.rs: the statements that a request's handler makes, whatever the tables are
-- when they are answered.
mod Auth
mod Sync
use nyrex.Prelude.{
  ◌≡◌, refl, In, Bool, true, false, Option, none, some, List, [], ◌∷◌, ok, err, inl, inr, ◌==◌,
  Bool-cases, Result-cases, Option-cases, String,
}
use nyrex.Prelude.Text.{strip_prefix}
use nyrex.Core.Models.{
  DateTime, Uuid, Note, VaultEntry, User, RefreshToken, RegisterRequest, LoginRequest,
  RefreshRequest,
}
use nyrex.Effect.Program.{Program, optional, ◌>>=◌}
use nyrex.Effect.Handler.{continue}
use nyrex.Effect.Only.{Only, Only-bind, Only-mono}
use nyrex.Effect.Permits.{Permits, Permitted}
use nyrex.Effect.Table.{Table}
use nyrex.Effect.Statement.{Statement}
use nyrex.Sync.{SyncResult, success, conflict, error, reconcile_note}
use nyrex.Api.Libraries.{Libraries, eddsa}
use nyrex.Api.Response.{AppState, StatusCode, ok_200, created_201}
use nyrex.Api.AuthUtils.{verify_password}
use nyrex.Api.Jwt.{encode_token}
use nyrex.Api.Middleware.{AuthUser, require_auth}
use nyrex.Api.Middleware.Guards.{Bears}
use nyrex.Api.Routes.Auth.Pair.{then_answer}
use nyrex.Api.Routes.Auth.{
  access_claims, generate_token_pair, create_account, register, login_as, login, rotate, refresh,
}
use nyrex.Api.Routes.Sync.{
  or_panic, found_or_none, push_result, sync_note, sync_notes, upload_vault_entry,
}
use nyrex.Api.Server.{
  Call, get_health, post_register, post_login, post_refresh, get_me, post_sync_notes,
  post_sync_vault_entries, serve, me, synced, attached,
}
use nyrex.Api.Server.Makes.{
  Makes, finds_user, adds_user, finds_token, revokes_token, adds_token, finds_note, pushes_note,
  adds_entry,
}
use nyrex.Api.Server.Requests.Auth.{register-Only, login-Only, refresh-Only}
use nyrex.Api.Server.Requests.Sync.{sync_notes-Only, upload_vault_entry-Only}

module _ (P : (t : Table) → Statement t → Type 0) (L : Libraries) (state : AppState)
    (header : Option String) {A : Type 0} (next : AuthUser → Program A)
    (w : (now : DateTime) (user : AuthUser)
      → Bears L state header now user
      → Only P (next user)) where
  pub require_auth-Only : Only P (require_auth L state next header)
  unfolding require_auth
  require_auth-Only = elim (Option-cases header) [
    | inl e ↦ rw (e, require_auth, Only) tt
    | inr (value, e) ↦ elim (Option-cases (strip_prefix "Bearer " value)) [
      | inl bad ↦ rw (e, require_auth, Only) (rw (bad, Only) tt)
      | inr (token, stripped) ↦
          rw (e, require_auth, Only)
            (rw (stripped, Only)
              (
                tt,
                λ now. elim (Result-cases (L.jwt_decode now token state.jwt_public_key eddsa)) [
                  | inr (m, f) ↦ rw (f, Only) tt
                  | inl (claims, f) ↦ elim (Option-cases (L.uuid_parse_str claims.sub)) [
                    | inl bad ↦ rw (f, Only) (rw (bad, Only) tt)
                    | inr (id, good) ↦
                        rw (f, Only)
                          (rw (good, Only)
                            (Only-bind P (next (record { user_id = id })) _
                              (w now (record { user_id = id })
                                (value, token, claims, e, stripped, f, good))
                              (λ a. tt)))
                  ]
                ],
              ))
    ]
  ]

pub synced-Only :
    (L : Libraries) (state : AppState) (checks : Bool) (client_notes : List Note) (user : AuthUser)
    → Only (Makes L checks (post_sync_notes client_notes)) (synced L state checks client_notes user)
synced-Only L state checks client_notes user =
    Only-bind _ (sync_notes checks user client_notes) _
      (sync_notes-Only L checks user client_notes client_notes (λ n m. m)) (λ rs. tt)

pub attached-Only :
    (L : Libraries) (state : AppState) (checks : Bool) (entry : VaultEntry) (user : AuthUser)
    → Only (Makes L checks (post_sync_vault_entries entry)) (attached L state checks entry user)
attached-Only L state checks entry user =
    Only-bind _ (upload_vault_entry user entry) _ (upload_vault_entry-Only L checks user entry)
      (λ r. tt)

-- A request's handler makes the statements of its call only.
pub serve-Only :
    (L : Libraries) (state : AppState) (checks : Bool) (header : Option String) (call : Call)
    → Only (Makes L checks call) (serve L state checks header call)
unfolding serve
serve-Only L state checks header get_health = tt
serve-Only L state checks header (post_register body) =
    Only-bind _ (register L state body) _ (register-Only L state checks body) (λ r. tt)
serve-Only L state checks header (post_login body) =
    Only-bind _ (login L state body) _ (login-Only L state checks (post_login body) body) (λ r. tt)
serve-Only L state checks header (post_refresh body) =
    Only-bind _ (refresh L state body) _ (refresh-Only L state checks body) (λ r. tt)
serve-Only L state checks header get_me =
    Only-bind _ (require_auth L state (me L state checks) header) _
      (require_auth-Only _ L state header (me L state checks) (λ now user bears. tt)) (λ r. tt)
serve-Only L state checks header (post_sync_notes client_notes) =
    Only-bind _ (require_auth L state (synced L state checks client_notes) header) _
      (require_auth-Only _ L state header (synced L state checks client_notes)
        (λ now user bears. synced-Only L state checks client_notes user))
      (λ r. tt)
serve-Only L state checks header (post_sync_vault_entries entry) =
    Only-bind _ (require_auth L state (attached L state checks entry) header) _
      (require_auth-Only _ L state header (attached L state checks entry)
        (λ now user bears. attached-Only L state checks entry user))
      (λ r. tt)

pub Makes-Permitted :
    {L : Libraries} {checks : Bool} {call : Call} (t : Table) (q : Statement t)
    → Makes L checks call t q
    → Permitted t q
Makes-Permitted t q (finds_user email) = tt
Makes-Permitted t q (adds_user id salt hash e) = tt
Makes-Permitted t q finds_token = tt
Makes-Permitted t q (revokes_token token_id) = λ now old. inr refl
Makes-Permitted t q (adds_token id user_id raw now) = tt
Makes-Permitted t q (finds_note session note) = tt
Makes-Permitted t q (pushes_note note found updated m e) = λ now old new. (refl, refl, refl)
Makes-Permitted t q adds_entry = tt

pub serve-Permits :
    (L : Libraries) (state : AppState) (checks : Bool) (header : Option String) (call : Call)
    → Permits (serve L state checks header call)
serve-Permits L state checks header call =
    Only-mono (Makes L checks call) Permitted Makes-Permitted (serve L state checks header call)
      (serve-Only L state checks header call)
