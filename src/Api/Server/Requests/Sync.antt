-- ===== src/Api/Server/Requests/Sync.antt =====
-- services/api/src/routes/sync.rs: the statements that the handlers make.
use nyrex.Prelude.{
  ◌≡◌, refl, In, Bool, Option, none, some, List, [], ◌∷◌, inl, inr, ◌==◌, Bool-cases,
}
use nyrex.Core.Models.{Note, VaultEntry}
use nyrex.Effect.Program.{optional, ◌>>=◌}
use nyrex.Effect.Only.{Only, Only-bind}
use nyrex.Sync.{SyncResult, success, conflict, error, reconcile_note}
use nyrex.Api.Libraries.{Libraries}
use nyrex.Api.Middleware.{AuthUser}
use nyrex.Api.Routes.Sync.{
  or_panic, found_or_none, push_result, sync_note, sync_notes, upload_vault_entry,
}
use nyrex.Api.Server.{post_sync_notes, post_sync_vault_entries}
use nyrex.Api.Server.Makes.{Makes, finds_note, pushes_note, adds_entry}

module _ (L : Libraries) (checks : Bool) (session : AuthUser) (client_notes : List Note) where
  push_result-Only :
      (note : Note) (found : Option Note)
      → In note client_notes
      → (r : Option (SyncResult Note)) → reconcile_note checks note found ≡ r
      → Only (Makes L checks (post_sync_notes client_notes)) (or_panic r >>= push_result)
  unfolding push_result
  push_result-Only note found m none e = tt
  push_result-Only note found m (some (success u)) e = (pushes_note note found u m e, λ r. tt)
  push_result-Only note found m (some (conflict v)) e = tt
  push_result-Only note found m (some (error x)) e = tt

  sync_note-Only :
      (note : Note)
      → In note client_notes
      → Only (Makes L checks (post_sync_notes client_notes)) (sync_note checks session note)
  unfolding sync_note
  sync_note-Only note m = elim (Bool-cases (note.user_id == session.user_id)) [
    | inr other ↦ rw (other, sync_note, Only) tt
    | inl mine ↦
        rw (mine, sync_note, Only)
          (
            finds_note session note,
            λ r.
                let found = found_or_none (optional r) in
                push_result-Only note found m (reconcile_note checks note found) refl,
          )
  ]

  pub sync_notes-Only :
      (batch : List Note)
      → ((note : Note) → In note batch → In note client_notes)
      → Only (Makes L checks (post_sync_notes client_notes)) (sync_notes checks session batch)
  unfolding sync_notes
  sync_notes-Only [] within = tt
  sync_notes-Only (note ∷ batch) within =
      Only-bind _ (sync_note checks session note) _ (sync_note-Only note (within note (inl refl)))
        λ result.
          Only-bind _ (sync_notes checks session batch) _
            (sync_notes-Only batch (λ n m. within n (inr m))) (λ results. tt)

pub upload_vault_entry-Only :
    (L : Libraries) (checks : Bool) (session : AuthUser) (entry : VaultEntry)
    → Only (Makes L checks (post_sync_vault_entries entry)) (upload_vault_entry session entry)
unfolding upload_vault_entry
upload_vault_entry-Only L checks session entry =
    elim (Bool-cases (entry.user_id == session.user_id)) [
      | inr other ↦ rw (other, upload_vault_entry, Only) tt
      | inl mine ↦ rw (mine, upload_vault_entry, Only) (adds_entry, λ r. tt)
    ]
