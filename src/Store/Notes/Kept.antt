-- ===== src/Store/Notes/Kept.antt =====
-- The interface of a note store: what its methods do to any database that meets the constraints.
use nyrex.Prelude.{Option, Result}
use nyrex.Core.Error.{CoreError}
use nyrex.Core.Traits.{NoteStore}
use nyrex.Effect.Table.{Tables}
use nyrex.Effect.Logic.{Ensures}
use nyrex.Effect.Calls
use nyrex.Effect.Schema.{IsWellFormed}
use nyrex.Store.Notes.Spec.{Op, Reply, Behaves, perform}
use nyrex.Store.Notes.Shelf.{shelf}

abbrev pub Kept : Op → Tables → Option (Result Reply CoreError) → Tables → Type 0
Kept op d r d' = Calls.Kept Behaves (λ d. shelf d.notes) op d r d'

abbrev pub IsNoteStore : NoteStore → Type 0
IsNoteStore store =
    (op : Op) (d : Tables) → IsWellFormed d → Ensures (perform store op) (Kept op d) d
