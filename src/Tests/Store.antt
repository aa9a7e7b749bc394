-- ===== src/Tests/Store.antt =====
-- The note store on the small database.
use nyrex.Prelude.{◌≡◌, refl, ok, err, some, none, List, [], ◌∷◌}
use nyrex.Prelude.Text.{varchar}
use nyrex.Core.Error.{database}
use nyrex.Effect.Host.{run}
use nyrex.Effect.Memory.{memory, memory-IsPostgres, reply}
use nyrex.Store.Notes.{get_note, create_note, update_note, delete_note, pg_nyrex_store}
use nyrex.Store.Notes.Laws.{delete_then_get}
use nyrex.Store.Notes.Spec.{
  Op, get, create, update, delete, written, found, deleted, perform, Behaves,
}
use nyrex.Store.Notes.Shelf.{shelf}
use nyrex.Effect.Calls.{AllKept, perform_all}
use nyrex.Store.Notes.Refinement.{perform_all-Runs}
use nyrex.Tests.Toy.{note, store, store-IsWellFormed}

-- Blanks behind the last character of the column are cut.
run-varchar : varchar 10 "markdown     " ≡ "markdown  "
run-varchar = refl

run-delete : (run memory (delete_then_get 1 10) store).0 ≡ some (ok none)
unfolding delete_note get_note reply
run-delete = refl

-- A note is created, changed, looked up and deleted, and its identifier is taken from then on.
abbrev ops : List Op
ops =
    create (note 50 1 1)
    ∷ update (note 50 1 2)
    ∷ get 1 50
    ∷ delete 1 50
    ∷ get 1 50
    ∷ create (note 50 2 1)
    ∷ []

run-ops :
    (run memory (perform_all (perform pg_nyrex_store) ops) store).0
    ≡ some (
        ok (written (note 50 1 1))
        ∷ ok (written (record (note 50 1 2) { updated_at = 1001 }))
        ∷ ok (found (some (record (note 50 1 2) { updated_at = 1001 })))
        ∷ ok deleted
        ∷ ok (found none)
        ∷ err (database "duplicate key value violates unique constraint")
        ∷ [])
unfolding perform_all pg_nyrex_store reply create_note update_note get_note delete_note
run-ops = refl

perform_all-Runs_example :
    let (replies, s') = run memory (perform_all (perform pg_nyrex_store) ops) store in
    AllKept Behaves (λ d. shelf d.notes) ops store.tables replies s'.tables
perform_all-Runs_example = perform_all-Runs memory-IsPostgres ops store store-IsWellFormed
