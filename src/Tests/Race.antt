-- ===== src/Tests/Race.antt =====
-- Two devices that push the same note at the same version.
use nyrex.Prelude.{ℕ, ◌≡◌, ◌≢◌, refl, true, List, [], ◌∷◌, arith, ok, In, All, filter, ◌==◌}
use nyrex.Prelude.Int.{i32_max}
use nyrex.Core.Models.{Note, Bytes, DateTime}
use nyrex.Effect.Program.{Program, done, sql}
use nyrex.Effect.Memory.{Memory, memory, memory-IsPostgres, reply}
use nyrex.Effect.Tasks.Schedule.{schedule}
use nyrex.Sync.{SyncResult, success}
use nyrex.Api.Routes.Sync.{sync_note, select_note, upsert_note, overwritten_note}
use nyrex.Api.Routes.Sync.Race.{Holds, schedule-sync_note}
use nyrex.Tests.Toy.{alice, note, store}

-- What one of the devices has written.
abbrev draft : Bytes → ℕ → Note
draft content version = record (note 10 1 version) { content_cipher = content }

abbrev ended : List (Program (SyncResult Note)) × Memory
ended =
    schedule memory (0 ∷ 1 ∷ 0 ∷ 1 ∷ [])
      (sync_note true alice (draft (7 ∷ []) 3) ∷ sync_note true alice (draft (8 ∷ []) 3) ∷ []) store

-- Both are told that they have version 4, and what the first one wrote is lost.
run-lost_update :
    (ended.0 ≡ done (success (draft (7 ∷ []) 4)) ∷ done (success (draft (8 ∷ []) 4)) ∷ [])
    × (ended.1.tables.notes ≡ record (draft (8 ∷ []) 4) { updated_at = 1003 } ∷ note 20 2 8 ∷ [])
unfolding sync_note reply
run-lost_update = (refl, refl)

below_last : (note 10 1 3).version ≢ i32_max
below_last e = ground arith

abbrev stored_row : Note
stored_row = note 10 1 3

abbrev s1 : Memory
s1 = (memory.answer (sql (select_note alice (draft (7 ∷ []) 3))) store).1

abbrev s2 : Memory
s2 = (memory.answer (sql (select_note alice (draft (8 ∷ []) 3))) s1).1

abbrev s3 : Memory
s3 = (memory.answer (sql (upsert_note (draft (7 ∷ []) 4))) s2).1

found_by_first :
    (memory.answer (sql (select_note alice (draft (7 ∷ []) 3))) store).0 ≡ ok (stored_row ∷ [])
unfolding reply
found_by_first = refl

found_by_second :
    (memory.answer (sql (select_note alice (draft (8 ∷ []) 3))) s1).0 ≡ ok (stored_row ∷ [])
unfolding reply
found_by_second = refl

pushed_by_first : (memory.answer (sql (upsert_note (draft (7 ∷ []) 4))) s2).0 ≡ ok []
unfolding reply
pushed_by_first = refl

pushed_by_second : (memory.answer (sql (upsert_note (draft (8 ∷ []) 4))) s3).0 ≡ ok []
unfolding reply
pushed_by_second = refl

schedule-sync_note_example :
    (ended.0 ≡ done (success (draft (7 ∷ []) 4)) ∷ done (success (draft (8 ∷ []) 4)) ∷ [])
    × ((now : DateTime) × In
          (overwritten_note now stored_row (draft (8 ∷ []) 4))
          ended.1.tables.notes)
    × All (Holds (draft (8 ∷ []) 4)) (filter (λ n. n.id == 10) ended.1.tables.notes)
schedule-sync_note_example =
    schedule-sync_note memory-IsPostgres true alice (draft (7 ∷ []) 3) (draft (8 ∷ []) 3) stored_row
      store refl refl refl refl below_last found_by_first found_by_second pushed_by_first
      pushed_by_second
