-- ===== src/Api/Routes/Sync/Versions.antt =====
-- services/api/src/routes/sync.rs: whether a stale note is detected depends on the lookup in front of the reconciliation.
use nyrex.Prelude.{
  Bool, Option, some, List, [], ◌∷◌, ◌≡◌, ◌≢◌, refl, ap, ◌∙◌, ◌⊎◌, inl, inr, ok, err, arith, In,
  In-perm, In-filter, head?, ◌&&◌, ◌==◌,
}
use nyrex.Core.Models.{Note}
use nyrex.Effect.Table.{notes}
use nyrex.Effect.Statement.{DbError, Rows}
use nyrex.Effect.Program.{sql, optional, ◌>>=◌}
use nyrex.Effect.Host.{Host, run, Executed, IsPostgres}
use nyrex.Sync.{SyncResult, conflict, reconcile_note}
use nyrex.Sync.Reconcile.{
  Reconciled, updated, refused, wrapped, overflowed, reconcile_note-Reconciled,
}
use nyrex.Api.Middleware.{AuthUser}
use nyrex.Api.Routes.Sync.{
  sync_note, select_note, upsert_note, push_result, or_panic, found_or_none,
}
use nyrex.Api.Routes.Sync.Outcome.{IsOwn, FoundOwn, found_own}
use nyrex.Api.Routes.Sync.Lock.{run-sync_note, sync_note-LookedUp}
use nyrex.Api.Routes.Sync.Ownership.{Overwrites, Answered-Overwrites}

-- A stored note at another version is refused.
reconcile_note-ne :
    (checks : Bool) {client server : Note}
    → client.version ≢ server.version
    → {r : Option (SyncResult Note)} → Reconciled checks client (some server) r
    → r ≡ some (conflict server)
reconcile_note-ne checks differ (updated same below) = absurd (differ same)
reconcile_note-ne checks differ (refused _) = refl
reconcile_note-ne checks differ (wrapped same top c) = absurd (differ same)
reconcile_note-ne checks differ (overflowed same top c) = absurd (differ same)

module _ {h : Host} (p : IsPostgres h) (overflow_checks : Bool) (session : AuthUser) (note : Note)
    (own : note.user_id ≡ session.user_id) where
  module _ (server : Note) (s : h.State) where
    first_found :
        (rows : List Note) (s' : h.State)
        → FoundOwn overflow_checks session note (p.tables s) (head? rows)
        → In server rows
        → ((n : Note) → IsOwn overflow_checks session note (p.tables s) n → n ≡ server)
        → note.version ≢ server.version
        → p.tables s' ≡ p.tables s
        → let (result, s'') =
            run h
              (or_panic (reconcile_note overflow_checks note (head? rows)) >>= push_result)
              s' in
          (result ≡ some (conflict server)) × (p.tables s'' ≡ p.tables s)
    unfolding push_result
    first_found [] s' f m unique differ same = absurd m
    first_found (n ∷ ns) s' f m unique differ same =
        let e = unique n f in
        let refusal : reconcile_note overflow_checks note (some n) ≡ some (conflict server) =
          ap (λ x. reconcile_note overflow_checks note (some x)) e
          ∙ reconcile_note-ne overflow_checks differ
              (reconcile_note-Reconciled overflow_checks note (some server)) in
        rw refusal (refl, same)

    answered :
        (r : Rows notes) (s' : h.State)
        → Executed (select_note session note) (p.tables s) r (p.tables s')
        → In server (p.tables s).notes
        → server.id ≡ note.id
        → server.user_id ≡ session.user_id
        → ((n : Note) → IsOwn overflow_checks session note (p.tables s) n → n ≡ server)
        → note.version ≢ server.version
        → let (result, s'') =
            run h
              (or_panic (reconcile_note overflow_checks note (found_or_none (optional r)))
                >>= push_result)
              s' in
          ((m : DbError) × (r ≡ err m))
          ⊎ ((result ≡ some (conflict server)) × (p.tables s'' ≡ p.tables s))
    answered (err m) s' e found same_id mine unique differ = inl (m, refl)
    answered (ok rows) s' (now, (perm, same)) found same_id mine unique differ = inr (
        first_found rows s' (found_own overflow_checks session note (p.tables s) own perm)
          (In-perm server perm (
            In-filter (λ n. n.id == note.id && n.user_id == session.user_id) server
              (p.tables s).notes found (ground arith)))
          unique differ same)

-- A client's note at another version than the caller's one stored note of that identifier is
-- answered by a conflict with the stored note, and nothing changes, unless the lookup fails.
pub sync_note_stale :
    {h : Host} (p : IsPostgres h) (overflow_checks : Bool) (session : AuthUser) (note server : Note)
    (s : h.State)
    → note.user_id ≡ session.user_id
    → In server (p.tables s).notes
    → server.id ≡ note.id
    → server.user_id ≡ session.user_id
    → ((n : Note) → IsOwn overflow_checks session note (p.tables s) n → n ≡ server)
    → note.version ≢ server.version
    → let (result, s') = run h (sync_note overflow_checks session note) s in
      ((m : DbError) × ((h.answer (sql (select_note session note)) s).0 ≡ err m))
      ⊎ ((result ≡ some (conflict server)) × (p.tables s' ≡ p.tables s))
sync_note_stale {h} p overflow_checks session note server s own found same_id mine unique differ =
    let (r, s') = h.answer (sql (select_note session note)) s in
    rw (run-sync_note p overflow_checks session note s own) (
      answered p overflow_checks session note own server s r s'
        (p.executes (select_note session note) s) found same_id mine unique differ)

-- A lookup that fails counts as a note that is new: whatever version and owner a stored row of this
-- identifier has, a note of the caller's is written over it and the answer is a success, if the
-- database answers the upsert. If the upsert fails too, the answer is an error and nothing changes.
pub sync_note-Unverified :
    {h : Host} (p : IsPostgres h) (overflow_checks : Bool) (session : AuthUser) (note server : Note)
    {m : DbError} (s : h.State)
    → note.user_id ≡ session.user_id
    → In server (p.tables s).notes
    → server.id ≡ note.id
    → (h.answer (sql (select_note session note)) s).0 ≡ err m
    → let s1 = (h.answer (sql (select_note session note)) s).1 in
      let (result, s') = run h (sync_note overflow_checks session note) s in
      Overwrites note server
        (p.tables s)
        (h.answer (sql (upsert_note note)) s1).0
        result
        (p.tables s')
sync_note-Unverified {h} p overflow_checks session note server s own found same_id failed =
    Answered-Overwrites note server (p.tables s) found same_id _ _ _
      (rw failed at (sync_note-LookedUp p overflow_checks session note s own))
