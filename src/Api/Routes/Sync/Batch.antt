-- ===== src/Api/Routes/Sync/Batch.antt =====
-- services/api/src/routes/sync.rs: a batch of notes, one after another.
use nyrex.Prelude.{Bool, Option, none, some, List, [], ◌∷◌}
use nyrex.Core.Models.{Note}
use nyrex.Effect.Table.{Tables}
use nyrex.Effect.Program.{Program, done, ◌>>=◌}
use nyrex.Effect.Host.{Host, run, IsPostgres}
use nyrex.Effect.Logic.{Ensures, Ensures-run, Ensures-bind, Ensures-mono, Next}
use nyrex.Sync.{SyncResult}
use nyrex.Api.Middleware.{AuthUser}
use nyrex.Api.Routes.Sync.{sync_note, sync_notes}
use nyrex.Api.Routes.Sync.Outcome.{Outcome, sync_note-Ensures}

-- The notes of a batch, each synced on the tables that the ones before it left.
pub data InTurn (checks : Bool) (session : AuthUser)
    : List Note → Tables → Option (List (SyncResult Note)) → Tables → Type 0 where
  finished : {d : Tables} → InTurn checks session [] d (some []) d
  answered :
      {note : Note} {batch : List Note} {d : Tables} (r : SyncResult Note) (e : Tables)
      {results : List (SyncResult Note)} {d' : Tables}
      → Outcome checks session note d (some r) e
      → InTurn checks session batch e (some results) d'
      → InTurn checks session (note ∷ batch) d (some (r ∷ results)) d'
  panicked :
      {note : Note} {batch : List Note} {d d' : Tables}
      → Outcome checks session note d none d'
      → InTurn checks session (note ∷ batch) d none d'
  panicked_later :
      {note : Note} {batch : List Note} {d : Tables} (r : SyncResult Note) (e : Tables)
      {d' : Tables}
      → Outcome checks session note d (some r) e
      → InTurn checks session batch e none d'
      → InTurn checks session (note ∷ batch) d none d'

module _ (checks : Bool) (session : AuthUser) where
  abbrev push : SyncResult Note → List (SyncResult Note) → Program (List (SyncResult Note))
  push result results = done (result ∷ results)

  abbrev go_on : List Note → SyncResult Note → Program (List (SyncResult Note))
  go_on batch result = sync_notes checks session batch >>= push result

  module _ (note : Note) (batch : List Note) (d : Tables) where
    after_batch :
        (r : SyncResult Note) {e : Tables}
        → Outcome checks session note d (some r) e
        → (results : Option (List (SyncResult Note))) (d' : Tables)
        → InTurn checks session batch e results d'
        → Next (push r) (InTurn checks session (note ∷ batch) d) results d'
    after_batch r {e} o none d' w = panicked_later r e o w
    after_batch r {e} o (some results) d' w = answered r e o w

    after_note :
        ((e : Tables) → Ensures (sync_notes checks session batch) (InTurn checks session batch e) e)
        → (r : Option (SyncResult Note)) (e : Tables) → Outcome checks session note d r e
        → Next (go_on batch) (InTurn checks session (note ∷ batch) d) r e
    after_note rest none e o = panicked o
    after_note rest (some r) e o =
        Ensures-bind (push r) (InTurn checks session (note ∷ batch) d)
          (sync_notes checks session batch) e
          (Ensures-mono (after_batch r o) (sync_notes checks session batch) e (rest e))

  pub sync_notes-Ensures :
      (batch : List Note) (d : Tables)
      → Ensures (sync_notes checks session batch) (InTurn checks session batch d) d
  unfolding sync_notes
  sync_notes-Ensures [] d = finished
  sync_notes-Ensures (note ∷ batch) d =
      Ensures-bind (go_on batch) (InTurn checks session (note ∷ batch) d)
        (sync_note checks session note) d
        (Ensures-mono (after_note note batch d (sync_notes-Ensures batch))
          (sync_note checks session note) d (sync_note-Ensures checks session note d))

-- A batch is answered note by note, in order: each result is the outcome of that note alone on the
-- tables that the notes before it left. A panic at one note ends the batch without an answer, and
-- what the notes before it stored stays.
pub sync_notes-InTurn :
    {h : Host} (p : IsPostgres h) (checks : Bool) (session : AuthUser) (batch : List Note)
    (s : h.State)
    → let (results, s') = run h (sync_notes checks session batch) s in
      InTurn checks session batch (p.tables s) results (p.tables s')
sync_notes-InTurn p checks session batch s =
    Ensures-run p (InTurn checks session batch (p.tables s)) (sync_notes checks session batch) s
      (sync_notes-Ensures checks session batch (p.tables s))
