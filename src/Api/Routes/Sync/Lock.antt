-- ===== src/Api/Routes/Sync/Lock.antt =====
-- services/api/src/routes/sync.rs: the optimistic lock of the loop body of `sync_notes`, against what
-- the database answers to its two statements.
use nyrex.Prelude.{
  Bool, true, Option, none, some, List, [], ◌∷◌, ◌≡◌, ◌≢◌, refl, subst, ok, err, ◌⊎◌, inl, inr,
  In-perm, filter, ◌&&◌, ◌==◌, ==_iff, Bool-cases, Permᴰ,
}
use nyrex.Prelude.Int.{i32_max}
use nyrex.Core.Models.{Note}
use nyrex.Effect.Table.{Tables, notes}
use nyrex.Effect.Statement.{Rows}
use nyrex.Effect.Program.{sql, optional, executed, ◌>>=◌}
use nyrex.Effect.Host.{Host, run, Executed, IsPostgres}
use nyrex.Sync.{SyncResult, success, conflict, error, reconcile_note}
use nyrex.Sync.Reconcile.{
  Reconciled, updated, refused, wrapped, overflowed, reconcile_note-Reconciled,
}
use nyrex.Api.Middleware.{AuthUser}
use nyrex.Api.Routes.Sync.{
  sync_note, select_note, upsert_note, stored, push_result, or_panic, found_or_none,
}
use nyrex.Api.Routes.Sync.Outcome.{IsOwn, Stored, found_own}

-- The answer for an accepted note, and the tables, by what the database answers to the upsert.
abbrev pub Answered : Note → Tables → Rows notes → Option (SyncResult Note) → Tables → Type 0
Answered u d (ok rows) result d' = (result ≡ some (success u)) × Stored u d d'
Answered u d (err m) result d' = (result ≡ some (error "Database update failed")) × (d' ≡ d)

module _ (overflow_checks : Bool) (session : AuthUser) (note : Note) (d : Tables)
    (upserted : Note → Rows notes) (result : Option (SyncResult Note)) (d' : Tables) where
  -- The caller's stored note decides: another version is a conflict, the same version is pushed as
  -- the next one, or stops at an overflow check.
  abbrev pub Compared : Note → Type 0
  Compared server =
      ((note.version ≢ server.version) × (result ≡ some (conflict server)) × (d' ≡ d))
      ⊎ (((note.version ≡ server.version)
            × (server.version ≡ i32_max)
            × (overflow_checks ≡ true)
            × (result ≡ none)
            × (d' ≡ d))
          ⊎ ((u : Note) × Reconciled overflow_checks note (some server) (some (success u))
              × Answered u d (upserted u) result d'))

  -- The first statement found no note of the caller's with the identifier, or it found one.
  abbrev pub LookedUp : Rows notes → Type 0
  LookedUp (err m) = Answered note d (upserted note) result d'
  LookedUp (ok rows) =
      ((filter (λ n. n.id == note.id && n.user_id == session.user_id) d.notes ≡ [])
        × Answered note d (upserted note) result d')
      ⊎ ((server : Note) × IsOwn overflow_checks session note d server × Compared server)

  abbrev pub Locked : Rows notes → Type 0
  Locked lookup =
      ((note.user_id ≢ session.user_id)
        × (result ≡ some (error "Unauthorized note ownership"))
        × (d' ≡ d))
      ⊎ ((note.user_id ≡ session.user_id) × LookedUp lookup)

-- A note of the caller's is looked up.
Locked-own :
    (overflow_checks : Bool) (session : AuthUser) (note : Note) (d : Tables)
    (upserted : Note → Rows notes) (result : Option (SyncResult Note)) (d' : Tables)
    (lookup : Rows notes)
    → note.user_id ≡ session.user_id
    → Locked overflow_checks session note d upserted result d' lookup
    → LookedUp overflow_checks session note d upserted result d' lookup
Locked-own _ _ _ _ _ _ _ _ own (inl (other, answer, same)) = absurd (other own)
Locked-own _ _ _ _ _ _ _ _ own (inr (mine, looked_up)) = looked_up

nil_perm : {A : Type 0} (xs : List A) → Permᴰ [] xs → xs ≡ []
nil_perm [] p = refl
nil_perm (x ∷ xs) p = absurd (In-perm x p (inl refl))

stored-Answered :
    (u : Note) (d : Tables) (r : Rows notes) (d' : Tables)
    → Executed (upsert_note u) d r d'
    → Answered u d r (some (stored u (executed r))) d'
stored-Answered u d (ok rows) d' (now, done) = (refl, (now, done))
stored-Answered u d (err m) d' same = (refl, same)

module _ {h : Host} (p : IsPostgres h) (overflow_checks : Bool) (session : AuthUser)
    (note : Note) where
  push-Answered :
      (u : Note) (d : Tables) (s : h.State)
      → p.tables s ≡ d
      → let (result, s') = run h (push_result (success u)) s in
        Answered u d (h.answer (sql (upsert_note u)) s).0 result (p.tables s')
  unfolding push_result
  push-Answered u d s same =
      let (r, s') = h.answer (sql (upsert_note u)) s in
      stored-Answered u d r (p.tables s') (
        subst (λ x. Executed (upsert_note u) x r (p.tables s')) same (p.executes (upsert_note u) s))

  push-Compared :
      (server : Note) (d : Tables) (s : h.State)
      → p.tables s ≡ d
      → {r : Option (SyncResult Note)} → Reconciled overflow_checks note (some server) r
      → let (result, s') = run h (or_panic r >>= push_result) s in
        Compared overflow_checks session note d
          (λ u. (h.answer (sql (upsert_note u)) s).0)
          result
          (p.tables s')
          server
  unfolding push_result
  push-Compared server d s same (refused differ) = inl (differ, refl, same)
  push-Compared server d s same (overflowed e top c) = inr (inl (e, top, c, refl, same))
  push-Compared server d s same (updated e below) =
      inr (inr (_, updated e below, push-Answered _ d s same))
  push-Compared server d s same (wrapped e top c) =
      inr (inr (_, wrapped e top c, push-Answered _ d s same))

  module _ (own : note.user_id ≡ session.user_id) (d : Tables) (s : h.State) where
    push-LookedUp :
        (r : Rows notes)
        → Executed (select_note session note) d r (p.tables s)
        → let (result, s') =
            run h
              (or_panic (reconcile_note overflow_checks note (found_or_none (optional r)))
                >>= push_result)
              s in
          LookedUp overflow_checks session note d
            (λ u. (h.answer (sql (upsert_note u)) s).0)
            result
            (p.tables s')
            r
    unfolding reconcile_note
    push-LookedUp (err m) same = push-Answered note d s same
    push-LookedUp (ok []) (now, (found, same)) = inl (nil_perm _ found, push-Answered note d s same)
    push-LookedUp (ok (server ∷ rows)) (now, (found, same)) = inr (
      server,
      found_own overflow_checks session note d own found,
      push-Compared server d s same (reconcile_note-Reconciled overflow_checks note (some server)),
    )

  -- Once the owner has been compared, a note is looked up, reconciled and pushed.
  pub run-sync_note :
      (s : h.State)
      → note.user_id ≡ session.user_id
      → run h (sync_note overflow_checks session note) s ≡ (
          let (r, s') = h.answer (sql (select_note session note)) s in
          run h
            (or_panic (reconcile_note overflow_checks note (found_or_none (optional r)))
              >>= push_result)
            s')
  unfolding sync_note
  run-sync_note s own =
      let mine : (note.user_id == session.user_id) ≡ true = (==_iff _ _).1 own in
      rw (mine, sync_note, run) refl

-- Syncing one note is decided by what the database answers to the lookup and to the upsert. A note
-- of another user is refused. Where the lookup finds a note of the caller's, that note decides: at
-- another version it is answered as a conflict and nothing changes; at the client's version the
-- client's note is pushed with the version after it (after the last version the first one, in a build
-- without overflow checks), or an overflow check panics at the last version and nothing changes. The
-- client's note is pushed as it came only if the lookup finds that the caller has no note of this
-- identifier, or if it fails. What is pushed is answered by a success exactly if the database
-- answers its upsert, which was then carried out, and else by an error, and nothing changes.
pub sync_note-Locked :
    {h : Host} (p : IsPostgres h) (overflow_checks : Bool) (session : AuthUser) (note : Note)
    (s : h.State)
    → let (lookup, s1) = h.answer (sql (select_note session note)) s in
      let (result, s') = run h (sync_note overflow_checks session note) s in
      Locked overflow_checks session note
        (p.tables s)
        (λ u. (h.answer (sql (upsert_note u)) s1).0)
        result
        (p.tables s')
        lookup
unfolding sync_note
sync_note-Locked {h} p overflow_checks session note s =
    elim (Bool-cases (note.user_id == session.user_id)) [
      | inr other ↦
          rw (other, sync_note, run) (inl ((λ same. cc (other, (==_iff _ _).1 same)), refl, refl))
      | inl mine ↦
          let own : note.user_id ≡ session.user_id = (==_iff _ _).0 mine in
          let (r, s1) = h.answer (sql (select_note session note)) s in
          rw (run-sync_note p overflow_checks session note s own) (
            inr (
              own,
              push-LookedUp p overflow_checks session note own (p.tables s) s1 r
                  (p.executes (select_note session note) s),
            ))
    ]

-- A note of the caller's: what its lookup's answer decides.
pub sync_note-LookedUp :
    {h : Host} (p : IsPostgres h) (overflow_checks : Bool) (session : AuthUser) (note : Note)
    (s : h.State)
    → note.user_id ≡ session.user_id
    → let (lookup, s1) = h.answer (sql (select_note session note)) s in
      let (result, s') = run h (sync_note overflow_checks session note) s in
      LookedUp overflow_checks session note
        (p.tables s)
        (λ u. (h.answer (sql (upsert_note u)) s1).0)
        result
        (p.tables s')
        lookup
sync_note-LookedUp {h} p overflow_checks session note s own =
    let s1 = (h.answer (sql (select_note session note)) s).1 in
    Locked-own overflow_checks session note _ (λ u. (h.answer (sql (upsert_note u)) s1).0) _ _ _ own
      (sync_note-Locked p overflow_checks session note s)
