-- ===== src/Api/Routes/Sync/Outcome.antt =====
-- What the loop body of `sync_notes` does to the database, result by result.
use nyrex.Prelude.{
  Bool, true, false, ◌&&◌, Option, none, some, List, [], ◌∷◌, map, ◌≡◌, ◌≢◌, refl, ok, err, ◌⊎◌,
  inl, inr, if◌then◌else◌, ◌==◌, ==_iff, arith, In, All, filter, Permᴰ, found-All, head?, sym,
  subst, Bool-cases,
}
use nyrex.Prelude.Int.{i32_max}
use nyrex.Core.Models.{DateTime, Note}
use nyrex.Effect.Table.{Tables, notes, has_id}
use nyrex.Effect.Program.{◌>>=◌}
use nyrex.Effect.Host.{Host, run, CarriedOut, IsPostgres}
use nyrex.Effect.Logic.{Ensures, Ensures-run}
use nyrex.Sync.{SyncResult, success, conflict, error, reconcile_note}
use nyrex.Sync.Reconcile.{
  Reconciled, created, updated, refused, wrapped, overflowed, reconcile_note-Reconciled,
}
use nyrex.Api.Middleware.{AuthUser}
use nyrex.Api.Routes.Sync.{
  upsert_note, push_result, sync_note, inserted_note, overwritten_note, or_panic,
}

-- The upsert of a note was carried out.
abbrev pub Stored : Note → Tables → Tables → Type 0
Stored note d d' = (now : DateTime) × CarriedOut (upsert_note note) now d [] d'

abbrev pub overwrite_in : Note → DateTime → List Note → List Note
overwrite_in u now = map (λ r. if r.id == u.id then overwritten_note now r u else r)

-- The two ways of an upsert: it overwrites the rows with the identifier, or it adds a row.
pub Stored-cases :
    (u : Note) {d d' : Tables}
    → Stored u d d'
    → (now : DateTime) × (((has_id notes u.id d ≡ true)
          × (d' ≡ record d { notes = overwrite_in u now d.notes }))
        ⊎ ((has_id notes u.id d ≡ false)
            × (d' ≡ record d { notes = inserted_note u now ∷ d.notes })))
Stored-cases u {d} (now, done) = elim (Bool-cases (has_id notes u.id d)) [
  | inl e ↦ (now, inl (e, rw e at done))
  | inr e ↦ let inserted = rw e at done in (now, inr (e, inserted.1))
]

module _ (overflow_checks : Bool) (session : AuthUser) (note : Note) (d : Tables) where
  -- A note that stands in the table under the caller's name and the client's identifier.
  abbrev pub IsOwn : Note → Type 0
  IsOwn server = In server d.notes × (server.id ≡ note.id) × (server.user_id ≡ session.user_id)

  -- A success was stored: the client's note as it came, or an update of a stored note that was at
  -- the client's version. A conflict shows the caller's stored note, which is at another version.
  -- Nothing else changes the database, and only an overflow check panics.
  abbrev pub Outcome : Option (SyncResult Note) → Tables → Type 0
  Outcome none d' =
      (overflow_checks ≡ true)
      × ((server : Note) × IsOwn server
          × (note.version ≡ server.version)
          × (server.version ≡ i32_max))
      × (d' ≡ d)
  Outcome (some (success u)) d' =
      (note.user_id ≡ session.user_id)
      × ((u ≡ note)
          ⊎ ((server : Note) × IsOwn server
              × Reconciled overflow_checks note (some server) (some (success u))))
      × Stored u d d'
  Outcome (some (conflict v)) d' = IsOwn v × (note.version ≢ v.version) × (d' ≡ d)
  Outcome (some (error m)) d' = d' ≡ d

  abbrev pub FoundOwn : Option Note → Type 0
  FoundOwn none = Unit
  FoundOwn (some server) = IsOwn server

  module _ (own : note.user_id ≡ session.user_id) where
    store_note :
        (u : Note)
        → (u ≡ note)
          ⊎ ((server : Note) × IsOwn server
              × Reconciled overflow_checks note (some server) (some (success u)))
        → Ensures (push_result (success u)) Outcome d
    unfolding push_result
    store_note u accepted = elim [
      | ok rows ↦ λ d' (now, done). (own, accepted, (now, done))
      | err m ↦ λ d' same. same
    ]

    push_reconciled :
        (found : Option Note) {r : Option (SyncResult Note)}
        → Reconciled overflow_checks note found r
        → FoundOwn found
        → Ensures (or_panic r >>= push_result) Outcome d
    unfolding push_result
    push_reconciled none created f = store_note note (inl refl)
    push_reconciled (some server) (updated same below) f =
        store_note _ (inr (server, f, updated same below))
    push_reconciled (some server) (wrapped same top c) f =
        store_note _ (inr (server, f, wrapped same top c))
    push_reconciled (some server) (refused differ) f = (f, differ, refl)
    push_reconciled (some server) (overflowed same top c) f = (c, (server, f, same, top), refl)

    pub found_own :
        {rows : List Note}
        → Permᴰ rows (filter (λ n. n.id == note.id && n.user_id == session.user_id) d.notes)
        → FoundOwn (head? rows)
    found_own {rows} found = first rows (found-All _ d.notes found)
      where
        first :
            (rows : List Note)
            → All
                (λ n. In n d.notes × (((n.id == note.id) && (n.user_id == session.user_id)) ≡ true))
                rows
            → FoundOwn (head? rows)
        first [] h = tt
        first (n ∷ ns) h = (h.0.0, ground arith, ground arith)

    after_lookup :
        (found : Option Note) {d' : Tables}
        → d' ≡ d
        → FoundOwn found
        → Ensures (or_panic (reconcile_note overflow_checks note found) >>= push_result) Outcome d'
    after_lookup found same f =
        subst
          (Ensures (or_panic (reconcile_note overflow_checks note found) >>= push_result) Outcome)
          (sym same)
          (push_reconciled found (reconcile_note-Reconciled overflow_checks note found) f)

  pub sync_note-Ensures : Ensures (sync_note overflow_checks session note) Outcome d
  unfolding sync_note
  sync_note-Ensures = elim (Bool-cases (note.user_id == session.user_id)) [
    | inr other ↦ rw (other, sync_note, Ensures) refl
    | inl mine ↦
        let own : note.user_id ≡ session.user_id = (==_iff _ _).0 mine in
        rw (mine, sync_note, Ensures)
          (elim [
            | err m ↦ λ d' same. after_lookup own none same tt
            | ok rows ↦
                λ d' (now, (found, same)). after_lookup own (head? rows) same (found_own own found)
          ])
  ]

-- Syncing one note answers a success only for a note of the caller's, and then the upsert of the
-- accepted note was carried out: the client's note as it came, or the next version of the caller's
-- stored note where that was at the client's version (after the last version the first one, in a
-- build without overflow checks). A conflict shows the caller's stored note at
-- another version. A conflict, an error or a panic leaves the database as it was, and only the
-- overflow check panics, on the caller's stored note at the last version.
pub sync_note-Outcome :
    {h : Host} (p : IsPostgres h) (overflow_checks : Bool) (session : AuthUser) (note : Note)
    (s : h.State)
    → let (result, s') = run h (sync_note overflow_checks session note) s in
      Outcome overflow_checks session note (p.tables s) result (p.tables s')
sync_note-Outcome {h} p overflow_checks session note s =
    Ensures-run p (Outcome overflow_checks session note (p.tables s))
      (sync_note overflow_checks session note) s
      (sync_note-Ensures overflow_checks session note (p.tables s))
