-- ===== src/Api/Server/Served.antt =====
-- services/api/src/main.rs: what the server promises of every request.
use nyrex.Prelude.{◌≡◌, refl, String, Bool, true, Option, none, some, List, Result, ok, err}
use nyrex.Core.Models.{
  Uuid, Note, VaultEntry, RegisterRequest, LoginRequest, RefreshRequest, AuthResponse,
}
use nyrex.Effect.Table.{Tables}
use nyrex.Effect.Program.{Program, done}
use nyrex.Effect.Handler.{Handler}
use nyrex.Effect.Host.{Host, run, IsPostgres}
use nyrex.Effect.Clock.{Anytime}
use nyrex.Effect.Logic.{Ensures, Ensures-run, Ensures-bind, Ensures-mono, Next}
use nyrex.Sync.{SyncResult}
use nyrex.Api.Libraries.{Libraries}
use nyrex.Api.Response.{AppState, Rejection, StatusCode, unauthorized_401}
use nyrex.Api.Middleware.{AuthUser, require_auth}
use nyrex.Api.Middleware.Bearer.{IsBearer, Admitted, require_auth-Ensures}
use nyrex.Api.Routes.Auth.Register.{RegisterOutcome, register-Ensures}
use nyrex.Api.Routes.Auth.Login.{LoginOutcome, login-Ensures}
use nyrex.Api.Routes.Auth.Refresh.{RefreshOutcome, refresh-Ensures}
use nyrex.Api.Routes.Sync.{sync_notes, upload_vault_entry}
use nyrex.Api.Routes.Auth.{register, login, refresh}
use nyrex.Api.Routes.Sync.Batch.{InTurn, sync_notes-Ensures}
use nyrex.Api.Routes.Sync.Upload.{UploadOutcome, upload_vault_entry-Ensures}
use nyrex.Api.Server.{
  Call, get_health, post_register, post_login, post_refresh, get_me, post_sync_notes,
  post_sync_vault_entries, Answer, text, rejected, identity, notes_synced, vault_entry_synced,
  answered, is_protected, serve, protected, public, synced, attached, me, guarded,
}

-- The answers to a request, without the code, and the tables after it. `none` is a panic.
pub data Served (L : Libraries) (state : AppState) (checks : Bool) (header : Option String)
    (d : Tables) : Call → Option Answer → Tables → Type 0 where
  healthy : {d' : Tables} → d' ≡ d → Served L state checks header d get_health (some (text "Ok")) d'
  registered :
      {body : RegisterRequest} (r : Result (StatusCode × AuthResponse) Rejection) {d' : Tables}
      → RegisterOutcome L state body d (some r) d'
      → Served L state checks header d (post_register body) (some (answered r)) d'
  logged_in :
      {body : LoginRequest} (r : Result (StatusCode × AuthResponse) Rejection) {d' : Tables}
      → LoginOutcome L state body d (some r) d'
      → Served L state checks header d (post_login body) (some (answered r)) d'
  refreshed :
      {body : RefreshRequest} (r : Result (StatusCode × AuthResponse) Rejection) {d' : Tables}
      → RefreshOutcome L state Anytime body d (some r) d'
      → Served L state checks header d (post_refresh body) (some (answered r)) d'
  unauthorized :
      {call : Call} {e : Rejection} {d' : Tables}
      → is_protected call ≡ true
      → e.status ≡ unauthorized_401
      → d' ≡ d
      → Served L state checks header d call (some (rejected e)) d'
  identified :
      {user : AuthUser} {d' : Tables}
      → IsBearer L state header user
      → d' ≡ d
      → Served L state checks header d get_me (some (identity (L.uuid_to_string user.user_id))) d'
  notes_pushed :
      {user : AuthUser} {client_notes : List Note} {results : List (SyncResult Note)} {d' : Tables}
      → IsBearer L state header user
      → InTurn checks user client_notes d (some results) d'
      → Served L state checks header d
          (post_sync_notes client_notes)
          (some (notes_synced results))
          d'
  overflowed :
      {user : AuthUser} {client_notes : List Note} {d' : Tables}
      → IsBearer L state header user
      → InTurn checks user client_notes d none d'
      → Served L state checks header d (post_sync_notes client_notes) none d'
  entry_uploaded :
      {user : AuthUser} {entry : VaultEntry} {r : SyncResult Uuid} {d' : Tables}
      → IsBearer L state header user
      → UploadOutcome user entry d (some r) d'
      → Served L state checks header d
          (post_sync_vault_entries entry)
          (some (vault_entry_synced r))
          d'

module _ (L : Libraries) (state : AppState) (checks : Bool) (header : Option String)
    (d : Tables) where
  public-Ensures :
      (handler : Handler (StatusCode × AuthResponse) Rejection)
      (Q : Option (Result (StatusCode × AuthResponse) Rejection) → Tables → Type 0) (call : Call)
      → Ensures handler Q d
      → ((d' : Tables) → ¬ (Q none d'))
      → ((r : Result (StatusCode × AuthResponse) Rejection) (d' : Tables)
          → Q (some r) d'
          → Served L state checks header d call (some (answered r)) d')
      → Ensures (public L state checks handler) (Served L state checks header d call) d
  public-Ensures handler Q call w total covers =
      Ensures-bind _ (Served L state checks header d call) handler d
        (Ensures-mono goes_on handler d w)
    where
      goes_on :
          (r : Option (Result (StatusCode × AuthResponse) Rejection)) (d' : Tables)
          → Q r d'
          → Next (λ r. done (answered r)) (Served L state checks header d call) r d'
      goes_on none d' q = absurd (total d' q)
      goes_on (some r) d' q = covers r d' q

  protected-Ensures :
      (call : Call)
      → is_protected call ≡ true
      → (next : AuthUser → Program Answer)
      → ((user : AuthUser)
          → Ensures
              (next user)
              (λ r d'. IsBearer L state header user → Served L state checks header d call r d')
              d)
      → Ensures (protected L state checks header next) (Served L state checks header d call) d
  protected-Ensures call closed next w =
      Ensures-bind _ (Served L state checks header d call) (require_auth L state next header) d (
        Ensures-mono passed (require_auth L state next header) d (
          require_auth-Ensures L state header
            (λ user r d'. IsBearer L state header user → Served L state checks header d call r d')
            next d w))
    where
      passed :
          (r : Option (Result Answer Rejection)) (d' : Tables)
          → Admitted L state header
              (λ user r d'. IsBearer L state header user → Served L state checks header d call r d')
              d
              r
              d'
          → Next (λ r. done (guarded r)) (Served L state checks header d call) r d'
      passed none d' (user, bears, q) = q bears
      passed (some (ok a)) d' (user, bears, q) = q bears
      passed (some (err e)) d' (refused, same) = unauthorized closed refused same

  serve-Ensures :
      (call : Call)
      → Ensures (serve L state checks header call) (Served L state checks header d call) d
  unfolding serve
  serve-Ensures get_health = healthy refl
  serve-Ensures (post_register body) =
      public-Ensures (register L state body) (RegisterOutcome L state body d) (post_register body)
        (register-Ensures L state body d) (λ d' never. never) (λ r d' o. registered r o)
  serve-Ensures (post_login body) =
      public-Ensures (login L state body) (LoginOutcome L state body d) (post_login body)
        (login-Ensures L state body d) (λ d' never. never) (λ r d' o. logged_in r o)
  serve-Ensures (post_refresh body) =
      public-Ensures (refresh L state body) (RefreshOutcome L state Anytime body d)
        (post_refresh body) (refresh-Ensures L state body d) (λ d' never. never)
        (λ r d' o. refreshed r o)
  serve-Ensures get_me =
      protected-Ensures get_me refl (me L state checks) (λ user bears. identified bears refl)
  serve-Ensures (post_sync_notes client_notes) =
      protected-Ensures (post_sync_notes client_notes) refl (synced L state checks client_notes)
        λ user. Ensures-bind _ _ (sync_notes checks user client_notes) d (
          Ensures-mono (pushed user) (sync_notes checks user client_notes) d
            (sync_notes-Ensures checks user client_notes d))
    where
      pushed :
          (user : AuthUser) (r : Option (List (SyncResult Note))) (d' : Tables)
          → InTurn checks user client_notes d r d'
          → Next
              (λ rs. done (notes_synced rs))
              (λ r d'.
                IsBearer L state header user
                → Served L state checks header d (post_sync_notes client_notes) r d')
              r
              d'
      pushed user none d' o = λ bears. overflowed bears o
      pushed user (some results) d' o = λ bears. notes_pushed bears o
  serve-Ensures (post_sync_vault_entries entry) =
      protected-Ensures (post_sync_vault_entries entry) refl (attached L state checks entry) λ user.
        Ensures-bind _ _ (upload_vault_entry user entry) d (
          Ensures-mono (uploaded user) (upload_vault_entry user entry) d
            (upload_vault_entry-Ensures user entry d))
    where
      uploaded :
          (user : AuthUser) (r : Option (SyncResult Uuid)) (d' : Tables)
          → UploadOutcome user entry d r d'
          → Next
              (λ r. done (vault_entry_synced r))
              (λ r d'.
                IsBearer L state header user
                → Served L state checks header d (post_sync_vault_entries entry) r d')
              r
              d'
      uploaded user none d' o = absurd o
      uploaded user (some r) d' o = λ bears. entry_uploaded bears o

-- Every request is answered as its route promises: a public route by the outcome of its handler; a
-- protected one by a 401 that changes nothing, or by the outcome of its handler for a user whose token
-- the header bore. Nothing but a version's overflow panics, and that only with overflow checks.
pub serve-Served :
    {h : Host} (p : IsPostgres h) (L : Libraries) (state : AppState) (checks : Bool)
    (header : Option String) (call : Call) (s : h.State)
    → let (answer, s') = run h (serve L state checks header call) s in
      Served L state checks header (p.tables s) call answer (p.tables s')
serve-Served p L state checks header call s =
    Ensures-run p (Served L state checks header (p.tables s) call)
      (serve L state checks header call) s (serve-Ensures L state checks header (p.tables s) call)
