-- ===== src/Api/Routes/Sync.antt =====
-- services/api/src/routes/sync.rs: upload of attachments and reconciliation of notes.
pub mod Outcome
pub mod Lock
pub mod Frame
pub mod Batch
pub mod Ownership
pub mod Versions
pub mod Upload
pub mod Retry
pub mod Race
use nyrex.Prelude.{
  Bool, true, false, ◌&&◌, ◌==◌, Option, none, some, List, [], ◌∷◌, Result, ok, err,
}
use nyrex.Core.Models.{Uuid, DateTime, Note, VaultEntry}
use nyrex.Effect.Statement.{Statement, DbError, select, insert, upsert}
use nyrex.Effect.Table.{notes, vault_entries}
use nyrex.Effect.Program.{Program, done, panic, ◌>>=◌, fetch_optional, execute}
use nyrex.Sync.{SyncResult, success, conflict, error, reconcile_note}
use nyrex.Api.Middleware.{AuthUser}

-- The answer for an executed INSERT.
abbrev uploaded : Uuid → Result (Unit {0}) DbError → SyncResult Uuid
uploaded id (ok _) = success id
uploaded id (err e) = error e

unfoldable pub upload_vault_entry : AuthUser → VaultEntry → Program (SyncResult Uuid)
upload_vault_entry session entry = elim (entry.user_id == session.user_id) [
  | false ↦ done (error "Unauthorized")
  | true ↦ do
    res ← execute vault_entries (insert λ now. record entry { created_at = now })
    done (uploaded entry.id res)
]

-- The new row of the upsert: the columns that it leaves out have the defaults of the migrations.
abbrev pub inserted_note : Note → DateTime → Note
inserted_note note now = record note {
  format = "markdown";
  tags = [];
  created_at = now;
  updated_at = now;
  deleted_at = none;
}

-- ON CONFLICT (id) DO UPDATE SET
abbrev pub overwritten_note : DateTime → Note → Note → Note
overwritten_note now old excluded = record old {
  title_cipher = excluded.title_cipher;
  content_cipher = excluded.content_cipher;
  nonce = excluded.nonce;
  version = excluded.version;
  updated_at = now;
}

abbrev pub upsert_note : Note → Statement notes
upsert_note note = upsert (inserted_note note) overwritten_note

abbrev pub stored : Note → Result (Unit {0}) DbError → SyncResult Note
stored note (ok _) = success note
stored note (err e) = error "Database update failed"

-- The second `match` of the loop's body.
unfoldable pub push_result : SyncResult Note → Program (SyncResult Note)
push_result (success updated_note) = do
  res ← execute notes (upsert_note updated_note)
  done (stored updated_note res)
push_result (conflict server_version) = done (conflict server_version)
push_result (error e) = done (error e)

-- `.unwrap_or(None)`
abbrev pub found_or_none : Result (Option Note) DbError → Option Note
found_or_none (ok found) = found
found_or_none (err e) = none

-- A panic of the reconciliation is a panic of the handler.
abbrev pub or_panic : {A : Type 0} → Option A → Program A
or_panic none = panic
or_panic (some a) = done a

abbrev pub select_note : AuthUser → Note → Statement notes
select_note session note = select λ _ n. n.id == note.id && n.user_id == session.user_id

module _ (overflow_checks : Bool) (session : AuthUser) where
  -- The body of the loop, for one note.
  unfoldable pub sync_note : Note → Program (SyncResult Note)
  unfolding push_result reconcile_note
  sync_note client_note = elim (client_note.user_id == session.user_id) [
    | false ↦ done (error "Unauthorized note ownership")
    | true ↦ do
      found ← fetch_optional notes (select_note session client_note)
      reconciliation ← or_panic (reconcile_note overflow_checks client_note (found_or_none found))
      push_result reconciliation
  ]

  unfoldable pub sync_notes : List Note → Program (List (SyncResult Note))
  unfolding sync_note
  sync_notes [] = done []
  sync_notes (client_note ∷ client_notes) = do
    result ← sync_note client_note
    results ← sync_notes client_notes
    done (result ∷ results)
