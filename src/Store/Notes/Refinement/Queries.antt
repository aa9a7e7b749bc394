-- ===== src/Store/Notes/Refinement/Queries.antt =====
-- crates/store/src/pg/mod.rs: `get_note` and `list_notes`, against the shelf.
use nyrex.Prelude.{
  ◌≡◌, ◌≢◌, refl, sym, ap, subst, ◌&&◌, ◌==◌, ==_iff, Bool-cases, Option, none, some, List, [], ◌∷◌,
  Result, ok, err, In, All, inl, inr, arith,
}
use nyrex.Core.Error.{CoreError}
use nyrex.Core.Models.{Uuid, Note}
use nyrex.Effect.Table.{Tables}
use nyrex.Effect.Program.{done, ◌>>=◌}
use nyrex.Effect.Logic.{Ensures, Ensures-bind, Ensures-mono, Next}
use nyrex.Effect.Schema.{IsWellFormed}
use nyrex.Store.Notes.{is_live, get_note, list_notes}
use nyrex.Store.Notes.Laws.{IsVisible, Listed, list_notes-Ensures}
use nyrex.Store.Notes.Lookup.{LookedUp, get_note-Ensures}
use nyrex.Store.Notes.Spec.{
  Op, get, list, found, listed, failed, got, enumerated, shown_to, Same, replying,
}
use nyrex.Store.Notes.Shelf.{shelf, shelf-In, In-shelf}
use nyrex.Store.Notes.Kept.{Kept}

unchanged : {d d' : Tables} → d' ≡ d → Same (shelf d.notes) (shelf d'.notes)
unchanged same i = ap (λ (d : Tables). shelf d.notes i) same

still_fine : {d d' : Tables} → d' ≡ d → IsWellFormed d → IsWellFormed d'
still_fine same wf = subst IsWellFormed (sym same) wf

-- An error that leaves the tables alone.
pub failed_Kept :
    {op : Op} {e : CoreError} {d d' : Tables}
    → d' ≡ d
    → IsWellFormed d
    → Kept op d (some (err e)) d'
failed_Kept same wf = (failed (unchanged same), still_fine same wf)

module _ (user_id note_id : Uuid) (d : Tables) (wf : IsWellFormed d) where
  nothing_shown :
      (o : Option Note)
      → shelf d.notes note_id ≡ o
      → ((n : Note) → IsVisible user_id d n → n.id ≢ note_id)
      → none ≡ shown_to user_id o
  nothing_shown none e none_visible = refl
  nothing_shown (some n) e none_visible = elim (Bool-cases (n.user_id == user_id && is_live n)) [
    | inr unseen ↦ rw unseen refl
    | inl seen ↦
        let (m, same) = shelf-In d.notes note_id n e in
        absurd (none_visible n (m, ground arith, ground arith) same)
  ]

  one_shown :
      (n : Note)
      → IsVisible user_id d n
      → n.id ≡ note_id
      → some n ≡ shown_to user_id (shelf d.notes note_id)
  one_shown n (m, mine, live) same =
      let stands : shelf d.notes note_id ≡ some n =
        subst (λ i. shelf d.notes i ≡ some n) same (In-shelf d.notes n wf.note_ids m) in
      rw (stands, shown_to) (rw ((==_iff _ _).1 mine) (rw live refl))

  after_get :
      (r : Option (Result (Option Note) CoreError)) (d' : Tables)
      → LookedUp user_id note_id d r d'
      → Next (λ r. done (replying found r)) (Kept (get user_id note_id) d) r d'
  after_get none d' o = o
  after_get (some (err e)) d' same = failed_Kept same wf
  after_get (some (ok none)) d' (none_visible, same) = (
    got (nothing_shown (shelf d.notes note_id) refl none_visible) (unchanged same),
    still_fine same wf,
  )
  after_get (some (ok (some n))) d' (visible, same_id, same) =
      (got (one_shown n visible same_id) (unchanged same), still_fine same wf)

  pub get-Kept :
      Ensures
        (get_note user_id note_id >>= λ r. done (replying found r))
        (Kept (get user_id note_id) d)
        d
  get-Kept =
      Ensures-bind (λ r. done (replying found r)) (Kept (get user_id note_id) d)
        (get_note user_id note_id) d
        (Ensures-mono after_get (get_note user_id note_id) d (get_note-Ensures user_id note_id d))

All-In : {A : Type 0} (P : A → Type 0) (a : A) (xs : List A) → All P xs → In a xs → P a
All-In P a [] h m = absurd m
All-In P a (x ∷ xs) h (inl e) = subst P (sym e) h.0
All-In P a (x ∷ xs) h (inr m) = All-In P a xs h.1 m

module _ (user_id : Uuid) (d : Tables) (wf : IsWellFormed d) where
  after_list :
      (r : Option (Result (List Note) CoreError)) (d' : Tables)
      → Listed user_id d r d'
      → Next (λ r. done (replying listed r)) (Kept (list user_id) d) r d'
  after_list none d' o = o
  after_list (some (err e)) d' same = failed_Kept same wf
  after_list (some (ok rows)) d' (all, complete, sorted, same) = (
    enumerated
        (λ n. (
          λ m.
              let (stored, mine, live) = All-In (IsVisible user_id d) n rows all m in
              (In-shelf d.notes n wf.note_ids stored, mine, live),
          λ (stands, mine, live). complete n ((shelf-In d.notes n.id n stands).0, mine, live),
        ))
        sorted (unchanged same),
    still_fine same wf,
  )

  pub list-Kept :
      Ensures (list_notes user_id >>= λ r. done (replying listed r)) (Kept (list user_id) d) d
  list-Kept =
      Ensures-bind (λ r. done (replying listed r)) (Kept (list user_id) d) (list_notes user_id) d
        (Ensures-mono after_list (list_notes user_id) d (list_notes-Ensures user_id d))
