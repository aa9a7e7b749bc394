-- ===== src/Store/Notes/Laws.antt =====
-- The contract of the note store: what the queries find, and what deletion and creation make of it.
use nyrex.Prelude.{
  Bool, true, false, ◌&&◌, Option, none, some, List, [], ◌∷◌, ◌≡◌, subst, ap, ok, err, Result, inl,
  inr, In, All, In-perm, In-filter, In-map_inv, found-All, ◌==◌, if◌then◌else◌, Bool-cases, arith,
}
use nyrex.Core.Error.{CoreError}
use nyrex.Core.Models.{Uuid, DateTime, Note}
use nyrex.Effect.Table.{Tables}
use nyrex.Effect.Handler
use nyrex.Effect.Handler.{Handler}
use nyrex.Effect.Host.{Host, run, IsPostgres, IsDescending}
use nyrex.Effect.Logic.{Ensures, Ensures-run}
use nyrex.Store.Notes.{is_live, get_note, list_notes, delete_note}

-- A note of the user's that is not deleted.
abbrev pub IsVisible : Uuid → Tables → Note → Type 0
IsVisible user_id d n = In n d.notes × (n.user_id ≡ user_id) × (is_live n ≡ true)

-- A list of exactly the visible notes, the latest first.
abbrev pub Listed : Uuid → Tables → Option (Result (List Note) CoreError) → Tables → Type 0
Listed user_id d none d' = ⊥
Listed user_id d (some (ok rows)) d' =
    All (IsVisible user_id d) rows
    × ((n : Note) → IsVisible user_id d n → In n rows)
    × IsDescending (λ (n : Note). n.updated_at) rows
    × (d' ≡ d)
Listed user_id d (some (err e)) d' = d' ≡ d

module _ (user_id : Uuid) (d : Tables) where
  abbrev visible : Note → Bool
  visible n = n.user_id == user_id && is_live n

  only_visible :
      (rows : List Note)
      → All (λ n. In n d.notes × (visible n ≡ true)) rows
      → All (IsVisible user_id d) rows
  only_visible [] h = tt
  only_visible (n ∷ ns) (here, rest) = ((here.0, ground arith, ground arith), only_visible ns rest)

  pub list_notes-Ensures : Ensures (list_notes user_id) (Listed user_id d) d
  unfolding list_notes
  list_notes-Ensures = elim [
    | err m ↦ λ d' same. same
    | ok rows ↦ λ d' (now, (found, sorted, same)). (
      only_visible rows (found-All visible d.notes found),
      λ n v. In-perm n found (In-filter visible n d.notes v.0 (ground arith)),
      sorted,
      same,
    )
  ]

-- Listing the notes of a user changes nothing and returns exactly that user's notes that are not
-- deleted, in descending order of their last change, or a database error.
list_notes-Listed :
    {h : Host} (p : IsPostgres h) (user_id : Uuid) (s : h.State)
    → let (result, s') = run h (list_notes user_id) s in
      Listed user_id (p.tables s) result (p.tables s')
list_notes-Listed p user_id s =
    Ensures-run p (Listed user_id (p.tables s)) (list_notes user_id) s
      (list_notes-Ensures user_id (p.tables s))

-- Deletes a note and then looks it up.
abbrev pub delete_then_get : Uuid → Uuid → Handler (Option Note) CoreError
delete_then_get user_id note_id =
    Handler.◌>>=◌ (delete_note user_id note_id) λ _. get_note user_id note_id

abbrev pub NotFound : Option (Result (Option Note) CoreError) → Tables → Type 0
NotFound none d' = ⊥
NotFound (some (ok none)) d' = Unit
NotFound (some (ok (some n))) d' = ⊥
NotFound (some (err e)) d' = Unit

module _ (user_id note_id : Uuid) where
  abbrev target : Note → Bool
  target n = n.id == note_id && n.user_id == user_id

  abbrev deleted : DateTime → Note → Note
  deleted now n = if target n then record n { deleted_at = some now } else n

  abbrev sought : Note → Bool
  sought n = n.user_id == user_id && (n.id == note_id && is_live n)

  not_sought : (now : DateTime) (n : Note) → sought (deleted now n) ≡ false
  not_sought now n = elim (Bool-cases (target n)) [
    | inl e ↦ rw e (ground arith)
    | inr e ↦ rw e (ground arith)
  ]

  delete_then_get-Ensures : (d : Tables) → Ensures (delete_then_get user_id note_id) NotFound d
  unfolding delete_note get_note
  delete_then_get-Ensures d = elim [
    | err m ↦ λ d' same. tt
    | ok rows ↦ λ d' (now, (hit, done)). (elim [
      | err m ↦ λ e same. tt
      | ok [] ↦ λ e (later, (found, same)). tt
      | ok (n ∷ ns) ↦ λ e (later, (found, same)).
          let row = (found-All sought d'.notes found).0 in
          let m = subst (λ (x : Tables). In n x.notes) done row.0 in
          let (a, b, eq) = In-map_inv (deleted now) n d.notes m in
          cc (not_sought now a, ap sought eq, row.1)
    ])
  ]

-- A note that was deleted is not found any more: a lookup right after a deletion returns no note, on
-- every host.
get_note-delete_note :
    {h : Host} (p : IsPostgres h) (user_id note_id : Uuid) (s : h.State)
    → let (result, s') = run h (delete_then_get user_id note_id) s in NotFound result (p.tables s')
get_note-delete_note p user_id note_id s =
    Ensures-run p NotFound (delete_then_get user_id note_id) s
      (delete_then_get-Ensures user_id note_id (p.tables s))
