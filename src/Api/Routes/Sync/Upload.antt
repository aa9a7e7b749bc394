-- ===== src/Api/Routes/Sync/Upload.antt =====
-- services/api/src/routes/sync.rs: what an upload of an attachment promises.
use nyrex.Prelude.{
  ◌≡◌, refl, true, false, Option, none, some, ok, err, ◌==◌, ◌∷◌, ==_iff, Bool-cases, inl, inr,
  arith,
}
use nyrex.Core.Models.{Uuid, DateTime, VaultEntry}
use nyrex.Effect.Table.{Tables, notes, vault_entries, has_id, meets_constraints}
use nyrex.Effect.Logic.{Ensures}
use nyrex.Sync.{SyncResult, success, conflict, error}
use nyrex.Api.Middleware.{AuthUser}
use nyrex.Api.Routes.Sync.{upload_vault_entry}

module _ (session : AuthUser) (entry : VaultEntry) (d : Tables) where
  abbrev pub UploadOutcome : Option (SyncResult Uuid) → Tables → Type 0
  UploadOutcome none d' = ⊥
  UploadOutcome (some (success id)) d' =
      (id ≡ entry.id)
      × (entry.user_id ≡ session.user_id)
      × (has_id vault_entries entry.id d ≡ false)
      × (has_id notes entry.note_id d ≡ true)
      × ((now : DateTime) × (d'
            ≡ record d { vault_entries = record entry { created_at = now } ∷ d.vault_entries }))
  UploadOutcome (some (conflict v)) d' = ⊥
  UploadOutcome (some (error m)) d' = d' ≡ d

  admitted :
      (now : DateTime)
      → meets_constraints vault_entries (record entry { created_at = now }) d ≡ true
      → (has_id vault_entries entry.id d ≡ false) × (has_id notes entry.note_id d ≡ true)
  admitted now e = (ground arith, ground arith)

  pub upload_vault_entry-Ensures : Ensures (upload_vault_entry session entry) UploadOutcome d
  unfolding upload_vault_entry
  upload_vault_entry-Ensures = elim (Bool-cases (entry.user_id == session.user_id)) [
    | inr other ↦ rw (other, upload_vault_entry, Ensures) refl
    | inl mine ↦
        let own : entry.user_id ≡ session.user_id = (==_iff _ _).0 mine in
        rw (mine, upload_vault_entry, Ensures)
          (elim [
            | err m ↦ λ d' same. same
            | ok rows ↦ λ d' (now, (meets, returned, done)).
                let (fresh, attached) = admitted now meets in
                (refl, own, fresh, attached, (now, done))
          ])
  ]
