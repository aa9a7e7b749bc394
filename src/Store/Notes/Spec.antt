-- ===== src/Store/Notes/Spec.antt =====
-- What a note store promises, without tables: a shelf that maps identifiers to notes, and what each
-- method of `NoteStore` (crates/core/src/traits/mod.rs) may answer and leave on it.
use nyrex.Prelude.{
  ◌≡◌, ◌↔◌, true, ◌&&◌, ◌==◌, Option, none, some, List, Result, ok, err, if◌then◌else◌, In,
}
use nyrex.Prelude.Text.{varchar}
use nyrex.Core.Error.{CoreError}
use nyrex.Core.Models.{Uuid, DateTime, Note}
use nyrex.Core.Traits.{NoteStore}
use nyrex.Effect.Host.{IsDescending}
use nyrex.Effect.Program.{Program, done, ◌>>=◌}
use nyrex.Store.Notes.{is_live}
use nyrex.Store.Notes.Writes.{updated}

abbrev pub Shelf : Type 0
Shelf = Uuid → Option Note

abbrev pub Same : Shelf → Shelf → Type 0
Same f f' = (i : Uuid) → f' i ≡ f i

-- A note stands on the shelf under the user and is not deleted.
abbrev pub Shows : Shelf → Uuid → Note → Type 0
Shows f user_id n = (f n.id ≡ some n) × (n.user_id ≡ user_id) × (is_live n ≡ true)

-- The calls of a client.
pub data Op : Type 0 where
  get : Uuid → Uuid → Op
  list : Uuid → Op
  create : Note → Op
  update : Note → Op
  delete : Uuid → Uuid → Op

pub data Reply : Type 0 where
  found : Option Note → Reply
  listed : List Note → Reply
  written : Note → Reply
  deleted : Reply

abbrev pub shown_to : Uuid → Option Note → Option Note
shown_to user_id none = none
shown_to user_id (some n) = if n.user_id == user_id && is_live n then some n else none

-- The mark of deletion, on a note of the user's.
abbrev pub hidden : Uuid → DateTime → Option Note → Option Note
hidden user_id now none = none
hidden user_id now (some n) =
    some (if n.user_id == user_id then record n { deleted_at = some now } else n)

-- The answers that a call may have, and the shelf after it. An error leaves the shelf alone.
pub data Behaves (f f' : Shelf) : Op → Result Reply CoreError → Type 0 where
  failed : {op : Op} {e : CoreError} → Same f f' → Behaves f f' op (err e)
  got :
      {user_id note_id : Uuid} {r : Option Note}
      → r ≡ shown_to user_id (f note_id)
      → Same f f'
      → Behaves f f' (get user_id note_id) (ok (found r))
  enumerated :
      {user_id : Uuid} {rows : List Note}
      → ((n : Note) → In n rows ↔ Shows f user_id n)
      → IsDescending (λ (n : Note). n.updated_at) rows
      → Same f f'
      → Behaves f f' (list user_id) (ok (listed rows))
  created :
      {note n : Note}
      → f note.id ≡ none
      → n ≡ record note { format = varchar 20 note.format; deleted_at = none }
      → ((i : Uuid) → f' i ≡ (if note.id == i then some n else f i))
      → Behaves f f' (create note) (ok (written n))
  rewritten :
      {note n : Note} (now : DateTime) (old : Note)
      → f note.id ≡ some old
      → old.user_id ≡ note.user_id
      → n ≡ updated note now old
      → ((i : Uuid) → f' i ≡ (if note.id == i then some n else f i))
      → Behaves f f' (update note) (ok (written n))
  marked :
      {user_id note_id : Uuid} (now : DateTime)
      → ((i : Uuid) → f' i ≡ (if note_id == i then hidden user_id now (f i) else f i))
      → Behaves f f' (delete user_id note_id) (ok deleted)

abbrev pub replying : {A : Type 0} → (A → Reply) → Result A CoreError → Result Reply CoreError
replying f (ok a) = ok (f a)
replying f (err e) = err e

module _ (store : NoteStore) where
  abbrev pub perform : Op → Program (Result Reply CoreError)
  perform (get user_id note_id) = store.get_note user_id note_id >>= λ r. done (replying found r)
  perform (list user_id) = store.list_notes user_id >>= λ r. done (replying listed r)
  perform (create note) = store.create_note note >>= λ r. done (replying written r)
  perform (update note) = store.update_note note >>= λ r. done (replying written r)
  perform (delete user_id note_id) =
      store.delete_note user_id note_id >>= λ r. done (replying (λ _. deleted) r)
