-- ===== src/Api/Routes/Sync/Frame.antt =====
-- What a whole batch of notes leaves alone.
use nyrex.Prelude.{
  suc, Bool, true, Option, none, some, List, [], ◌∷◌, map, ◌≡◌, ◌≢◌, refl, ◌∙◌, sym, subst, ap, ◌⊎◌,
  inl, inr, ◌==◌, arith, In, filter, length,
}
use nyrex.Core.Models.{Uuid, DateTime, Note}
use nyrex.Effect.Table.{Tables}
use nyrex.Effect.Program.{Program, done, ◌>>=◌}
use nyrex.Effect.Host.{Host, run, IsPostgres}
use nyrex.Effect.Logic.{Ensures, Next, Ensures-run, Ensures-bind, Ensures-mono}
use nyrex.Sync.{SyncResult, success, conflict, error}
use nyrex.Sync.Reconcile.{Reconciled, Reconciled-id}
use nyrex.Api.Middleware.{AuthUser}
use nyrex.Api.Routes.Sync.{sync_note, sync_notes}
use nyrex.Api.Routes.Sync.Outcome.{
  Stored, Stored-cases, overwrite_in, IsOwn, Outcome, sync_note-Ensures,
}

abbrev pub rows_of : Uuid → List Note → List Note
rows_of id = filter (λ n. n.id == id)

abbrev pub ids : List Note → List Uuid
ids = map (λ n. n.id)

-- Only rows of `notes` whose identifiers are in the list may differ.
pub record Frame (named : List Uuid) (d d' : Tables) : Type 0 where
  pub users : d'.users ≡ d.users
  pub refresh_tokens : d'.refresh_tokens ≡ d.refresh_tokens
  pub vault_entries : d'.vault_entries ≡ d.vault_entries
  pub notes : (id : Uuid) → ¬ (In id named) → rows_of id d'.notes ≡ rows_of id d.notes

module _ (u : Note) (now : DateTime) (id : Uuid) (other : id ≢ u.id) where
  rows_of-overwrite_in : (rows : List Note) → rows_of id (overwrite_in u now rows) ≡ rows_of id rows
  rows_of-overwrite_in [] = refl
  rows_of-overwrite_in (n ∷ ns) = ground (arith, rows_of-overwrite_in ns)

Frame-refl : (named : List Uuid) {d d' : Tables} → d' ≡ d → Frame named d d'
Frame-refl named {d} same =
    subst (Frame named d) (sym same)
      (record { users = refl; refresh_tokens = refl; vault_entries = refl; notes = λ id out. refl })

Stored-Frame : (u : Note) {d d' : Tables} → Stored u d d' → Frame (u.id ∷ []) d d'
Stored-Frame u {d} stored =
    let (now, ways) = Stored-cases u stored in
    elim ways [
      | inl (e, same) ↦ subst (Frame (u.id ∷ []) d) (sym same) (record {
        users = refl;
        refresh_tokens = refl;
        vault_entries = refl;
        notes = λ id out. rows_of-overwrite_in u now id (λ eq. out (inl eq)) d.notes;
      })
      | inr (e, same) ↦ subst (Frame (u.id ∷ []) d) (sym same) (record {
        users = refl;
        refresh_tokens = refl;
        vault_entries = refl;
        notes = λ id out. let ne : id ≢ u.id = λ eq. out (inl eq) in ground arith;
      })
    ]

Frame-trans :
    (u : Uuid) (named : List Uuid) {d e f : Tables}
    → Frame (u ∷ []) d e
    → Frame named e f
    → Frame (u ∷ named) d f
Frame-trans u named a b = record {
  users = b.users ∙ a.users;
  refresh_tokens = b.refresh_tokens ∙ a.refresh_tokens;
  vault_entries = b.vault_entries ∙ a.vault_entries;
  notes = λ id out.
      b.notes id (λ m. out (inr m))
      ∙ a.notes id (elim [ inl e ↦ out (inl e) | inr never ↦ absurd never ]);
}

-- The result has one entry for each note, and the database outside the notes named is as before.
-- Only a build with overflow checks panics.
abbrev pub BatchOutcome :
    Bool → List Note → Tables → Option (List (SyncResult Note)) → Tables → Type 0
BatchOutcome overflow_checks batch d none d' = (overflow_checks ≡ true) × Frame (ids batch) d d'
BatchOutcome overflow_checks batch d (some results) d' =
    (length results ≡ length batch) × Frame (ids batch) d d'

module _ (overflow_checks : Bool) (session : AuthUser) where
  accepted-id :
      (note u : Note) (d : Tables)
      → (u ≡ note)
        ⊎ ((server : Note) × IsOwn overflow_checks session note d server
            × Reconciled overflow_checks note (some server) (some (success u)))
      → u.id ≡ note.id
  accepted-id note u d (inl e) = ap (λ (n : Note). n.id) e
  accepted-id note u d (inr (server, own, r)) = Reconciled-id r

  Outcome-Frame :
      (note : Note) {d d' : Tables} (result : Option (SyncResult Note))
      → Outcome overflow_checks session note d result d'
      → Frame (note.id ∷ []) d d'
  Outcome-Frame note none o = Frame-refl _ o.2
  Outcome-Frame note {d} {d'} (some (success u)) o =
      subst (λ id. Frame (id ∷ []) d d') (accepted-id note u d o.1) (Stored-Frame u o.2)
  Outcome-Frame note (some (conflict v)) o = Frame-refl _ o.2
  Outcome-Frame note (some (error m)) o = Frame-refl _ o

  abbrev push : SyncResult Note → List (SyncResult Note) → Program (List (SyncResult Note))
  push result results = done (result ∷ results)

  abbrev go_on : List Note → SyncResult Note → Program (List (SyncResult Note))
  go_on batch result = sync_notes overflow_checks session batch >>= push result

  module _ (note : Note) (batch : List Note) (d : Tables) where
    after_batch :
        (result : SyncResult Note) {e : Tables}
        → Frame (note.id ∷ []) d e
        → (results : Option (List (SyncResult Note))) (f : Tables)
        → BatchOutcome overflow_checks batch e results f
        → Next (push result) (BatchOutcome overflow_checks (note ∷ batch) d) results f
    after_batch result first none f (checked, rest) =
        (checked, Frame-trans note.id (ids batch) first rest)
    after_batch result first (some results) f (same_length, rest) =
        (ap suc same_length, Frame-trans note.id (ids batch) first rest)

    after_note :
        ((e : Tables)
          → Ensures
              (sync_notes overflow_checks session batch)
              (BatchOutcome overflow_checks batch e)
              e)
        → (result : Option (SyncResult Note)) (e : Tables)
        → Outcome overflow_checks session note d result e
        → Next (go_on batch) (BatchOutcome overflow_checks (note ∷ batch) d) result e
    after_note batch-Ensures none e o = (
      o.0,
      Frame-trans note.id (ids batch) (Outcome-Frame note none o) (Frame-refl (ids batch) refl),
    )
    after_note batch-Ensures (some result) e o =
        Ensures-bind (push result) (BatchOutcome overflow_checks (note ∷ batch) d)
          (sync_notes overflow_checks session batch) e
          (Ensures-mono (after_batch result (Outcome-Frame note (some result) o))
            (sync_notes overflow_checks session batch) e (batch-Ensures e))

  pub sync_notes-Ensures :
      (batch : List Note) (d : Tables)
      → Ensures (sync_notes overflow_checks session batch) (BatchOutcome overflow_checks batch d) d
  unfolding sync_notes
  sync_notes-Ensures [] d = (refl, Frame-refl [] refl)
  sync_notes-Ensures (note ∷ batch) d =
      Ensures-bind (go_on batch) (BatchOutcome overflow_checks (note ∷ batch) d)
        (sync_note overflow_checks session note) d
        (Ensures-mono (after_note note batch d (sync_notes-Ensures batch))
          (sync_note overflow_checks session note) d
          (sync_note-Ensures overflow_checks session note d))

-- A batch is answered by one result for each note, unless it panics, which only a build with overflow
-- checks does. In either case users, refresh
-- tokens and attachments are as before, and so are all rows of notes whose identifiers the batch
-- does not name, in their order.
pub sync_notes-BatchOutcome :
    {h : Host} (p : IsPostgres h) (overflow_checks : Bool) (session : AuthUser) (batch : List Note)
    (s : h.State)
    → let (results, s') = run h (sync_notes overflow_checks session batch) s in
      BatchOutcome overflow_checks batch (p.tables s) results (p.tables s')
sync_notes-BatchOutcome {h} p overflow_checks session batch s =
    Ensures-run p (BatchOutcome overflow_checks batch (p.tables s))
      (sync_notes overflow_checks session batch) s
      (sync_notes-Ensures overflow_checks session batch (p.tables s))
