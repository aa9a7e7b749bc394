-- ===== src/Store/Notes/Lookup.antt =====
-- crates/store/src/pg/mod.rs: the lookup of one note.
use nyrex.Prelude.{
  ◌≡◌, ◌≢◌, Bool, true, ◌&&◌, ◌==◌, Option, none, some, [], ◌∷◌, Result, ok, err, found-All, In,
  In-perm, In-filter, arith, ==_iff,
}
use nyrex.Core.Error.{CoreError}
use nyrex.Core.Models.{Uuid, Note}
use nyrex.Effect.Table.{Tables}
use nyrex.Effect.Host.{Host, run, IsPostgres}
use nyrex.Effect.Logic.{Ensures, Ensures-run}
use nyrex.Store.Notes.{is_live, get_note}
use nyrex.Store.Notes.Laws.{IsVisible}

-- The user's note with the identifier if there is one that is not deleted.
abbrev pub LookedUp :
    Uuid → Uuid → Tables → Option (Result (Option Note) CoreError) → Tables → Type 0
LookedUp user_id note_id d none d' = ⊥
LookedUp user_id note_id d (some (ok none)) d' =
    ((n : Note) → IsVisible user_id d n → n.id ≢ note_id) × (d' ≡ d)
LookedUp user_id note_id d (some (ok (some n))) d' =
    IsVisible user_id d n × (n.id ≡ note_id) × (d' ≡ d)
LookedUp user_id note_id d (some (err e)) d' = d' ≡ d

module _ (user_id note_id : Uuid) where
  abbrev sought : Note → Bool
  sought n = n.user_id == user_id && (n.id == note_id && is_live n)

  meets : (n : Note) → n.user_id ≡ user_id → n.id ≡ note_id → is_live n ≡ true → sought n ≡ true
  meets n mine same live =
      rw ((==_iff n.user_id user_id).1 mine) (rw ((==_iff n.id note_id).1 same) live)

  is_visible :
      (d : Tables) (n : Note)
      → In n d.notes × (sought n ≡ true)
      → IsVisible user_id d n × (n.id ≡ note_id)
  is_visible d n (m, e) = ((m, ground arith, ground arith), ground arith)

  pub get_note-Ensures :
      (d : Tables) → Ensures (get_note user_id note_id) (LookedUp user_id note_id d) d
  unfolding get_note
  get_note-Ensures d = elim [
    | err m ↦ λ d' same. same
    | ok [] ↦ λ d' (now, (found, same)). (
      λ n visible same_id.
          let hit = meets n visible.1 same_id visible.2 in
          absurd (In-perm n found (In-filter sought n d.notes visible.0 hit)),
      same,
    )
    | ok (n ∷ ns) ↦ λ d' (now, (found, same)).
        let (visible, same_id) = is_visible d n (found-All sought d.notes found).0 in
        (visible, same_id, same)
  ]

-- Looking a note up changes nothing. It returns a note that is stored with the identifier under the
-- user and is not deleted, and no note only when there is none; or a database error.
get_note-LookedUp :
    {h : Host} (p : IsPostgres h) (user_id note_id : Uuid) (s : h.State)
    → let (result, s') = run h (get_note user_id note_id) s in
      LookedUp user_id note_id (p.tables s) result (p.tables s')
get_note-LookedUp p user_id note_id s =
    Ensures-run p (LookedUp user_id note_id (p.tables s)) (get_note user_id note_id) s
      (get_note-Ensures user_id note_id (p.tables s))
