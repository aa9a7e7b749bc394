-- ===== src/Api/Routes/Sync/Ownership.antt =====
-- services/api/src/routes/sync.rs: a note whose identifier another user's row has.
use nyrex.Prelude.{
  true, Option, some, List, ◌≡◌, sym, subst, inl, inr, ok, err, In, In-map, any-In, ◌==◌, ==_iff,
  if◌then◌else◌,
}
use nyrex.Core.Models.{DateTime, Note}
use nyrex.Effect.Table.{Tables, notes}
use nyrex.Effect.Statement.{Rows}
use nyrex.Effect.Host.{Host}
use nyrex.Sync.{SyncResult, success, error}
use nyrex.Api.Routes.Sync.{overwritten_note}
use nyrex.Api.Routes.Sync.Outcome.{Stored, Stored-cases, overwrite_in}
use nyrex.Api.Routes.Sync.Lock.{Answered}

pub In-overwrite_in :
    (u theirs : Note) (now : DateTime) (rows : List Note)
    → In theirs rows
    → theirs.id ≡ u.id
    → In (overwritten_note now theirs u) (overwrite_in u now rows)
In-overwrite_in u theirs now rows m e =
    let same : (theirs.id == u.id) ≡ true = (==_iff _ _).1 e in
    rw same at
      (In-map (λ (r : Note). if r.id == u.id then overwritten_note now r u else r) theirs rows m)

-- What the caller's note does to a stored row, by what the database answers to the upsert: it is
-- written over the row and the answer is a success, or the answer is an error and nothing changes.
abbrev pub Overwrites :
    Note → Note → Tables → Rows notes → Option (SyncResult Note) → Tables → Type 0
Overwrites note theirs d (ok rows) result d' =
    (result ≡ some (success note))
    × (now : DateTime) × In (overwritten_note now theirs note) d'.notes
Overwrites note theirs d (err m) result d' =
    (result ≡ some (error "Database update failed")) × (d' ≡ d)

module _ (note theirs : Note) (d : Tables) (found : In theirs d.notes)
    (same_id : theirs.id ≡ note.id) where
  holds_overwritten :
      (d' : Tables)
      → Stored note d d'
      → (now : DateTime) × In (overwritten_note now theirs note) d'.notes
  holds_overwritten d' stored =
      let (now, ways) = Stored-cases note stored in
      elim ways [
        | inl (e, same) ↦ (
          now,
          subst (λ (x : Tables). In (overwritten_note now theirs note) x.notes) (sym same)
              (In-overwrite_in note theirs now d.notes found same_id),
        )
        | inr (missing, same) ↦ absurd (
            cc (
              missing,
              any-In (λ (r : Note). r.id == note.id) theirs d.notes found ((==_iff _ _).1 same_id),
            ))
      ]

  pub Answered-Overwrites :
      (r : Rows notes) (result : Option (SyncResult Note)) (d' : Tables)
      → Answered note d r result d'
      → Overwrites note theirs d r result d'
  Answered-Overwrites (ok rows) result d' (e, stored) =
      let (now, written) = holds_overwritten d' stored in (e, now, written)
  Answered-Overwrites (err m) result d' a = a
