-- ===== src/Store/Notes/Refinement.antt =====
-- crates/store/src/pg/mod.rs: the PostgreSQL store keeps the promises of a shelf.
mod Queries
mod Commands
use nyrex.Prelude.{◌≡◌, refl, Bool, Option, none, some, List, [], ◌∷◌, Result}
use nyrex.Core.Error.{CoreError}
use nyrex.Core.Traits.{NoteStore}
use nyrex.Effect.Table.{Tables}
use nyrex.Effect.Program.{Program, done, ◌>>=◌}
use nyrex.Effect.Host.{Host, run, IsPostgres}
use nyrex.Effect.Logic.{Ensures, Ensures-run, Ensures-bind, Ensures-mono, Next}
use nyrex.Effect.Schema.{IsWellFormed}
use nyrex.Store.Notes.{pg_nyrex_store}
use nyrex.Store.Notes.Spec.{Op, get, list, create, update, delete, Reply, Behaves, perform}
use nyrex.Store.Notes.Shelf.{shelf}
use nyrex.Store.Notes.Kept.{IsNoteStore}
use nyrex.Effect.Calls.{AllKept, perform_all, perform_all-Ensures}
use nyrex.Store.Notes.Refinement.Queries.{get-Kept, list-Kept}
use nyrex.Store.Notes.Refinement.Commands.{create-Kept, update-Kept, delete-Kept}

pg_nyrex_store-IsNoteStore : IsNoteStore pg_nyrex_store
unfolding pg_nyrex_store
pg_nyrex_store-IsNoteStore (get user_id note_id) d wf = get-Kept user_id note_id d wf
pg_nyrex_store-IsNoteStore (list user_id) d wf = list-Kept user_id d wf
pg_nyrex_store-IsNoteStore (create note) d wf = create-Kept note d wf
pg_nyrex_store-IsNoteStore (update note) d wf = update-Kept note d wf
pg_nyrex_store-IsNoteStore (delete user_id note_id) d wf = delete-Kept user_id note_id d wf

-- Any run of calls of the note store's methods is a run of a shelf: each answer, errors included, is
-- one that the shelf may give at that moment, and what the calls leave in the database is the shelf
-- that its run leaves, when the database meets the constraints of the migrations, which it does again
-- in the end. No call panics.
pub perform_all-Runs :
    {h : Host} (p : IsPostgres h) (ops : List Op) (s : h.State)
    → IsWellFormed (p.tables s)
    → let (replies, s') = run h (perform_all (perform pg_nyrex_store) ops) s in
      AllKept Behaves (λ d. shelf d.notes) ops (p.tables s) replies (p.tables s')
perform_all-Runs p ops s wf =
    Ensures-run p (AllKept Behaves (λ d. shelf d.notes) ops (p.tables s))
      (perform_all (perform pg_nyrex_store) ops) s
      (perform_all-Ensures Behaves (λ d. shelf d.notes) (perform pg_nyrex_store)
        pg_nyrex_store-IsNoteStore ops (p.tables s) wf)
