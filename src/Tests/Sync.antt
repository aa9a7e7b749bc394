-- ===== src/Tests/Sync.antt =====
-- The sync handlers on the small database.
use nyrex.Prelude.{◌≡◌, refl, true, false, Option, none, some, List, [], ◌∷◌, inl, err, ◌⊎◌}
use nyrex.Core.Models.{Note}
use nyrex.Effect.Program.{sql}
use nyrex.Effect.Statement.{DbError}
use nyrex.Effect.Memory.{Memory, memory, memory-IsPostgres, reply}
use nyrex.Effect.Host.{Host, run, IsPostgres}
use nyrex.Sync.{SyncResult, success, conflict, error, reconcile_note}
use nyrex.Sync.Reconcile.{Reconciled, reconcile_note-Reconciled}
use nyrex.Api.Routes.Sync.{sync_note, sync_notes, select_note, upsert_note}
use nyrex.Api.Routes.Sync.Lock.{Locked, sync_note-Locked}
use nyrex.Api.Routes.Sync.Batch.{InTurn, sync_notes-InTurn}
use nyrex.Api.Routes.Sync.Retry.{IsWritten, sync_note-sync_note}
use nyrex.Api.Routes.Sync.Frame.{BatchOutcome, sync_notes-BatchOutcome}
use nyrex.Api.Routes.Sync.Ownership.{Overwrites}
use nyrex.Api.Routes.Sync.Versions.{sync_note-Unverified}
use nyrex.Tests.Toy.{alice, note, store, store_down, store-IsWellFormed}

-- An update at the stored version, a stale note, a note of Bob's, and a new one.
abbrev batch : List Note
batch = note 10 1 3 ∷ note 10 1 3 ∷ note 20 2 8 ∷ note 50 1 1 ∷ []

abbrev versions : Option (List (SyncResult Note)) → List (SyncResult Note)
versions none = []
versions (some results) = results

run-batch :
    versions (run memory (sync_notes true alice batch) store).0
    ≡ success (note 10 1 4)
      ∷ conflict (record (note 10 1 4) { updated_at = 1001 })
      ∷ error "Unauthorized note ownership"
      ∷ success (note 50 1 1)
      ∷ []
unfolding sync_notes reply
run-batch = refl

reconcile_note-Reconciled_example :
    Reconciled true (note 10 1 3) (some (note 10 1 3)) (some (success (note 10 1 4)))
unfolding reconcile_note
reconcile_note-Reconciled_example =
    reconcile_note-Reconciled true (note 10 1 3) (some (note 10 1 3))

sync_note-Locked_example :
    let (lookup, s1) = memory.answer (sql (select_note alice (note 10 1 3))) store in
    let (result, s') = run memory (sync_note true alice (note 10 1 3)) store in
    Locked true alice
      (note 10 1 3)
      store.tables
      (λ u. (memory.answer (sql (upsert_note u)) s1).0)
      result
      s'.tables
      lookup
sync_note-Locked_example = sync_note-Locked memory-IsPostgres true alice (note 10 1 3) store

sync_notes-BatchOutcome_example :
    let (results, s') = run memory (sync_notes true alice batch) store in
    BatchOutcome true batch store.tables results s'.tables
sync_notes-BatchOutcome_example = sync_notes-BatchOutcome memory-IsPostgres true alice batch store

-- It succeeds, and Bob's row holds what Alice sent.
run-takeover :
    let (result, s') = run memory (sync_note true alice (note 20 1 1)) store in
    (result ≡ some (success (note 20 1 1)))
    × (s'.tables.notes ≡ note 10 1 3 ∷ record (note 20 2 1) { updated_at = 1001 } ∷ [])
unfolding sync_note reply
run-takeover = (refl, refl)

-- A host whose connection is back after one failed statement.
abbrev recovering : Host
recovering = record {
  State = Memory;
  answer = λ q s. let (r, s') = reply q s in (r, record s' { is_down = false });
}

abbrev recovering-IsPostgres : IsPostgres recovering
recovering-IsPostgres = record {
  tables = λ s. s.tables;
  executes = λ q s. memory-IsPostgres.executes q s;
  utc_now-tables = λ s. memory-IsPostgres.utc_now-tables s;
  new_v4-tables = λ s. memory-IsPostgres.new_v4-tables s;
  generate_salt-tables = λ s. memory-IsPostgres.generate_salt-tables s;
  generate_nonce-tables = λ s. memory-IsPostgres.generate_nonce-tables s;
}

refused_down :
    (recovering.answer (sql (select_note alice (note 10 1 2))) store_down).0
    ≡ err "connection refused"
unfolding reply
refused_down = refl

-- The stale note of version 2 is written over the stored one of version 3.
run-unverified :
    let (result, s') = run recovering (sync_note true alice (note 10 1 2)) store_down in
    (result ≡ some (success (note 10 1 2)))
    × (s'.tables.notes ≡ record (note 10 1 2) { updated_at = 1000 } ∷ note 20 2 8 ∷ [])
unfolding sync_note reply
run-unverified = (refl, refl)

sync_note-Unverified_example :
    let s1 = (recovering.answer (sql (select_note alice (note 10 1 2))) store_down).1 in
    let (result, s') = run recovering (sync_note true alice (note 10 1 2)) store_down in
    Overwrites
      (note 10 1 2)
      (note 10 1 3)
      (recovering-IsPostgres.tables store_down)
      (recovering.answer (sql (upsert_note (note 10 1 2))) s1).0
      result
      (recovering-IsPostgres.tables s')
sync_note-Unverified_example =
    sync_note-Unverified recovering-IsPostgres true alice (note 10 1 2) (note 10 1 3) store_down
      refl (inl refl) refl refused_down

sync_notes-InTurn_example :
    let (results, s') = run memory (sync_notes true alice batch) store in
    InTurn true alice batch store.tables results s'.tables
sync_notes-InTurn_example = sync_notes-InTurn memory-IsPostgres true alice batch store

first_attempt :
    (run memory (sync_note true alice (note 10 1 3)) store).0 ≡ some (success (note 10 1 4))
unfolding sync_note reply
first_attempt = refl

sync_note-sync_note_example :
    let s' = (run memory (sync_note true alice (note 10 1 3)) store).1 in
    let (again, s'') = run memory (sync_note true alice (note 10 1 3)) s' in
    ((m : DbError) × ((memory.answer (sql (select_note alice (note 10 1 3))) s').0 ≡ err m))
    ⊎ ((row : Note) × IsWritten (note 10 1 3) (note 10 1 3) row
        × (again ≡ some (conflict row))
        × (s''.tables ≡ s'.tables))
sync_note-sync_note_example =
    sync_note-sync_note memory-IsPostgres true alice (note 10 1 3) (note 10 1 3) store
      store-IsWellFormed (inl refl) refl refl refl refl first_attempt
