-- ===== src/Store/Notes/Refinement/Commands.antt =====
-- crates/store/src/pg/mod.rs: `create_note`, `update_note` and `delete_note`, against the shelf.
use nyrex.Prelude.{
  ◌≡◌, refl, sym, ap, ◌∙◌, subst, Bool, true, false, ◌&&◌, ◌==◌, ==_iff, Bool-cases, Option, none,
  some, [], ◌∷◌, Result, ok, err, if◌then◌else◌, inl, inr, arith, cons-injective_left,
}
use mathlib.Core.Option.{map}
use nyrex.Prelude.Text.{varchar}
use nyrex.Core.Error.{CoreError}
use nyrex.Core.Models.{Uuid, DateTime, Note}
use nyrex.Effect.Table.{Table, Tables, has_id, meets_constraints}
use nyrex.Effect.Program.{done, ◌>>=◌}
use nyrex.Effect.Logic.{Ensures, Ensures-bind, Ensures-mono, Next}
use nyrex.Effect.Permits.{Change, either}
use nyrex.Effect.Schema.{IsWellFormed}
use nyrex.Effect.Schema.Statements.{changed_rows, put_row}
use nyrex.Store.Notes.{create_note, update_note, delete_note}
use nyrex.Store.Notes.Writes.{updated, is_target, Updated, update_note-Ensures}
use nyrex.Store.Notes.Spec.{
  create, update, delete, written, deleted, created, rewritten, marked, hidden, replying,
}
use nyrex.Store.Notes.Shelf.{shelf, shelf-In, In-shelf, shelf-free, shelf-map}
use nyrex.Store.Notes.Kept.{Kept}
use nyrex.Store.Notes.Refinement.Queries.{failed_Kept}

module _ (note : Note) (d : Tables) (wf : IsWellFormed d) where
  abbrev kept_note : Note
  kept_note = record note { format = varchar 20 note.format; deleted_at = none }

  after_create :
      (d' : Tables)
      → meets_constraints Table.notes kept_note d ≡ true
      → d' ≡ record d { notes = kept_note ∷ d.notes }
      → Kept (create note) d (some (ok (written kept_note))) d'
  after_create d' meets put =
      let free : has_id Table.notes note.id d ≡ false = ground arith in
      (
        created (shelf-free d.notes note.id free) refl
            (λ i. ap (λ (x : Tables). shelf x.notes i) put),
        subst IsWellFormed (sym put) (put_row Table.notes kept_note d meets wf),
      )

  pub create-Kept :
      Ensures (create_note note >>= λ r. done (replying written r)) (Kept (create note) d) d
  unfolding create_note
  create-Kept = elim [
    | err m ↦ λ d' same. failed_Kept same wf
    | ok [] ↦ λ d' (now, (meets, returned, put)). absurd (cc (returned))
    | ok (n ∷ ns) ↦ λ d' (now, (meets, returned, put)).
        subst (λ x. Kept (create note) d (some (ok (written x))) d')
          (sym (cons-injective_left returned)) (after_create d' meets put)
  ]

  rewrite-Change :
      (now : DateTime) (r : Note)
      → Change Table.notes r (if is_target note r then updated note now r else r)
  rewrite-Change now =
      either Table.notes (is_target note) (updated note now) (λ r. (refl, refl, refl))

  on_shelf :
      (now : DateTime) (old : Note)
      → shelf d.notes note.id ≡ some old
      → is_target note old ≡ true
      → (i : Uuid) (o : Option Note) → shelf d.notes i ≡ o
      → map (λ r. if is_target note r then updated note now r else r) o
        ≡ (if note.id == i then some (updated note now old) else o)
  on_shelf now old stands target i none e = elim (Bool-cases (note.id == i)) [
    | inr other ↦ rw other refl
    | inl same ↦
        let stands' = subst (λ k. shelf d.notes k ≡ some old) ((==_iff _ _).0 same) stands in
        absurd (cc (stands', e))
  ]
  on_shelf now old stands target i (some x) e = elim (Bool-cases (note.id == i)) [
    | inl same ↦
        let stands' = subst (λ k. shelf d.notes k ≡ some old) ((==_iff _ _).0 same) stands in
        let same_note : x ≡ old = cc (stands', e) in
        subst
          (λ y.
            map (λ r. if is_target note r then updated note now r else r) (some y)
            ≡ (if note.id == i then some (updated note now old) else some y))
          (sym same_note) (rw (same, target) refl)
    | inr other ↦
        let (m, same_id) = shelf-In d.notes i x e in
        let missed : is_target note x ≡ false = ground arith in rw (other, missed) refl
  ]

  after_update :
      (r : Option (Result Note CoreError)) (d' : Tables)
      → Updated note d r d'
      → Next (λ r. done (replying written r)) (Kept (update note) d) r d'
  after_update none d' o = o
  after_update (some (err e)) d' same = failed_Kept same wf
  after_update (some (ok n)) d' (now, (old, m, target, made), put) =
      let same_id : old.id ≡ note.id = ground arith in
      let mine : old.user_id ≡ note.user_id = ground arith in
      let stands : shelf d.notes note.id ≡ some old =
        subst (λ i. shelf d.notes i ≡ some old) same_id (In-shelf d.notes old wf.note_ids m) in
      (
        rewritten now old stands mine made (λ i.
            ap (λ (x : Tables). shelf x.notes i) put
            ∙ shelf-map (λ r. if is_target note r then updated note now r else r)
                (λ r. (rewrite-Change now r).0) d.notes i
            ∙ subst
                (λ x.
                  map (λ r. if is_target note r then updated note now r else r) (shelf d.notes i)
                  ≡ (if note.id == i then some x else shelf d.notes i))
                (sym made) (on_shelf now old stands target i (shelf d.notes i) refl)),
        subst IsWellFormed (sym put) (
            changed_rows Table.notes (λ r. if is_target note r then updated note now r else r) d
              (rewrite-Change now) wf),
      )

  pub update-Kept :
      Ensures (update_note note >>= λ r. done (replying written r)) (Kept (update note) d) d
  update-Kept =
      Ensures-bind (λ r. done (replying written r)) (Kept (update note) d) (update_note note) d
        (Ensures-mono after_update (update_note note) d (update_note-Ensures note d))

module _ (user_id note_id : Uuid) (d : Tables) (wf : IsWellFormed d) where
  abbrev target : Note → Bool
  target n = n.id == note_id && n.user_id == user_id

  abbrev hide : DateTime → Note → Note
  hide now r = if target r then record r { deleted_at = some now } else r

  hide-Change : (now : DateTime) (r : Note) → Change Table.notes r (hide now r)
  hide-Change now =
      either Table.notes target (λ r. record r { deleted_at = some now }) (λ r. (refl, refl, refl))

  hidden_on_shelf :
      (now : DateTime) (i : Uuid) (o : Option Note)
      → shelf d.notes i ≡ o
      → map (hide now) o ≡ (if note_id == i then hidden user_id now o else o)
  hidden_on_shelf now i none e = ground arith
  hidden_on_shelf now i (some x) e =
      let (m, same_id) = shelf-In d.notes i x e in
      elim (Bool-cases (note_id == i)) [
        | inl same ↦
            let here : (x.id == note_id) ≡ true =
              (==_iff _ _).1 (same_id ∙ sym ((==_iff _ _).0 same)) in
            rw (same, here) refl
        | inr other ↦ let missed : target x ≡ false = ground arith in rw (other, missed) refl
      ]

  pub delete-Kept :
      Ensures
        (delete_note user_id note_id >>= λ r. done (replying (λ _. deleted) r))
        (Kept (delete user_id note_id) d)
        d
  unfolding delete_note
  delete-Kept = elim [
    | err m ↦ λ d' same. failed_Kept same wf
    | ok rows ↦ λ d' (now, (hit, put)). (
      marked now (λ i.
          ap (λ (x : Tables). shelf x.notes i) put
          ∙ shelf-map (hide now) (λ r. (hide-Change now r).0) d.notes i
          ∙ hidden_on_shelf now i (shelf d.notes i) refl),
      subst IsWellFormed (sym put) (changed_rows Table.notes (hide now) d (hide-Change now) wf),
    )
  ]
