-- ===== src/Store/Notes.antt =====
-- crates/store/src/pg/mod.rs: `PgNyrexStore`.
pub mod Laws
pub mod Writes
pub mod Lookup
pub mod Spec
pub mod Shelf
pub mod Kept
pub mod Refinement
use nyrex.Prelude.{Option, none, some, List, Bool, ◌&&◌, ◌==◌, true, false}
use nyrex.Prelude.Text.{varchar}
use nyrex.Core.Error.{CoreError, database}
use nyrex.Core.Models.{Uuid, Note}
use nyrex.Core.Traits.{NoteStore}
use nyrex.Effect.Statement.{select, select_desc, insert, update}
use nyrex.Effect.Table.{notes}
use nyrex.Effect.Program.{fetch_optional, fetch_all, fetch_one, execute, request, utc_now}
use nyrex.Effect.Handler.{Handler, ◌>>=◌, mapping_err, awaiting}

-- `deleted_at IS NULL`
abbrev pub is_live : Note → Bool
is_live n = elim n.deleted_at [ none ↦ true | some _ ↦ false ]

unfoldable pub get_note : Uuid → Uuid → Handler (Option Note) CoreError
get_note user_id note_id =
    mapping_err database
      (fetch_optional notes (select λ _ n. n.user_id == user_id && (n.id == note_id && is_live n)))

unfoldable pub list_notes : Uuid → Handler (List Note) CoreError
list_notes user_id =
    mapping_err database
      (fetch_all notes (select_desc (λ _ n. n.user_id == user_id && is_live n) (λ n. n.updated_at)))

-- `deleted_at` is not among the columns of the statement, so it is NULL. The times are those of the
-- note in microseconds, which the columns keep.
unfoldable pub create_note : Note → Handler Note CoreError
create_note note = mapping_err database (
    fetch_one notes
      (insert λ _. record note { format = varchar 20 note.format; deleted_at = none }))

-- The clock is read while the statement's values are bound.
unfoldable pub update_note : Note → Handler Note CoreError
update_note note = do
  now ← awaiting (request utc_now)
  mapping_err database (
      fetch_one notes (
        update (λ n. n.id == note.id && n.user_id == note.user_id)
          (λ _ n. record n {
            title_cipher = note.title_cipher;
            content_cipher = note.content_cipher;
            nonce = note.nonce;
            version = note.version;
            format = varchar 20 note.format;
            tags = note.tags;
            updated_at = now;
          })))

unfoldable pub delete_note : Uuid → Uuid → Handler (Unit {0}) CoreError
delete_note user_id note_id = mapping_err database (
    execute notes (
      update (λ n. n.id == note_id && n.user_id == user_id)
        (λ now n. record n { deleted_at = some now })))

unfoldable pub pg_nyrex_store : NoteStore
pg_nyrex_store = record {
  get_note = get_note;
  list_notes = list_notes;
  create_note = create_note;
  update_note = update_note;
  delete_note = delete_note;
}
