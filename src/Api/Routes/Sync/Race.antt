-- ===== src/Api/Routes/Sync/Race.antt =====
-- services/api/src/routes/sync.rs: two devices of one user that push the same note at once.
use nyrex.Prelude.{
  ◌≡◌, ◌≢◌, refl, sym, subst, inl, inr, Bool, true, Option, some, List, [], ◌∷◌, ok, In, All,
  any-In, filter, ◌==◌, ==_iff, Bool-cases, found-All, arith,
}
use nyrex.Prelude.Int.{suc_ℤ, i32_max}
use nyrex.Core.Models.{DateTime, Note}
use nyrex.Effect.Table.{Tables}
use nyrex.Effect.Program.{done, ask, sql, optional, ◌>>=◌}
use nyrex.Effect.Host.{Host, IsPostgres}
use nyrex.Effect.Tasks.Schedule.{schedule}
use nyrex.Sync.{SyncResult, success, reconcile_note}
use nyrex.Sync.Reconcile.{
  Reconciled, updated, refused, wrapped, overflowed, reconcile_note-Reconciled,
}
use nyrex.Api.Middleware.{AuthUser}
use nyrex.Api.Routes.Sync.{
  or_panic, found_or_none, push_result, sync_note, select_note, upsert_note, overwritten_note,
}
use nyrex.Api.Routes.Sync.Outcome.{Stored, Stored-cases, overwrite_in}
use nyrex.Api.Routes.Sync.Ownership.{In-overwrite_in}

-- The note at the version after the server's.
abbrev pub next : Note → Note → Note
next server note = record note { version = suc_ℤ server.version }

-- A note at the server's version, below the last one, is accepted as the next version.
reconcile_note-eq :
    (checks : Bool) {note server : Note}
    → note.version ≡ server.version
    → server.version ≢ i32_max
    → {r : Option (SyncResult Note)} → Reconciled checks note (some server) r
    → r ≡ some (success (next server note))
reconcile_note-eq checks same below (updated e f) = refl
reconcile_note-eq checks same below (refused differ) = absurd (differ same)
reconcile_note-eq checks same below (wrapped e top c) = absurd (below top)
reconcile_note-eq checks same below (overflowed e top c) = absurd (below top)

-- The row holds what the client sent.
abbrev pub Holds : Note → Note → Type 0
Holds u row =
    (row.title_cipher ≡ u.title_cipher)
    × (row.content_cipher ≡ u.content_cipher)
    × (row.nonce ≡ u.nonce)
    × (row.version ≡ u.version)

overwrite_in-Holds :
    (u : Note) (now : DateTime) (rows : List Note)
    → All (Holds u) (filter (λ n. n.id == u.id) (overwrite_in u now rows))
overwrite_in-Holds u now [] = tt
overwrite_in-Holds u now (r ∷ rs) =
    let rest = overwrite_in-Holds u now rs in
    elim (Bool-cases (r.id == u.id)) [
      | inl e ↦ rw e (rw e ((refl, refl, refl, refl), rest))
      | inr e ↦ rw e (rw e rest)
    ]

-- An upsert of a note whose identifier a row has: the row with what was sent, and no row of the
-- identifier with anything else.
rewritten :
    (u row : Note) (d d' : Tables)
    → In row d.notes
    → row.id ≡ u.id
    → Stored u d d'
    → (now : DateTime) × In (overwritten_note now row u) d'.notes
      × All (Holds u) (filter (λ n. n.id == u.id) d'.notes)
rewritten u row d d' found same_id stored =
    let (now, ways) = Stored-cases u stored in
    elim ways [
      | inl (e, same) ↦ (
        now,
        subst (λ (x : Tables). In (overwritten_note now row u) x.notes) (sym same)
            (In-overwrite_in u row now d.notes found same_id),
        subst (λ (x : Tables). All (Holds u) (filter (λ (n : Note). n.id == u.id) x.notes))
            (sym same) (overwrite_in-Holds u now d.notes),
      )
      | inr (missing, same) ↦ absurd (
          cc (
            missing,
            any-In (λ (r : Note). r.id == u.id) row d.notes found ((==_iff _ _).1 same_id),
          ))
    ]

module _ (checks : Bool) (session : AuthUser) where
  -- Once its owner has been compared, the program of a note of the caller's.
  syncing :
      (note : Note)
      → note.user_id ≡ session.user_id
      → sync_note checks session note
        ≡ ask (sql (select_note session note)) (λ r.
          or_panic (reconcile_note checks note (found_or_none (optional r))) >>= push_result)
  unfolding sync_note
  syncing note own =
      let mine : (note.user_id == session.user_id) ≡ true = (==_iff _ _).1 own in
      rw (mine, sync_note) refl

  module _ (h : Host) (first second server : Note) (s : h.State)
      (own_first : first.user_id ≡ session.user_id) (own_second : second.user_id ≡ session.user_id)
      (same_first : first.version ≡ server.version) (same_second : second.version ≡ server.version)
      (below : server.version ≢ i32_max) where
    scheduled :
        {rows rows' : List Note}
        → let (r, s1) = h.answer (sql (select_note session first)) s in
          let (r', s2) = h.answer (sql (select_note session second)) s1 in
          let (w, s3) = h.answer (sql (upsert_note (next server first))) s2 in
          let (w', s4) = h.answer (sql (upsert_note (next server second))) s3 in
          r ≡ ok (server ∷ [])
          → r' ≡ ok (server ∷ [])
          → w ≡ ok rows
          → w' ≡ ok rows'
          → schedule h
              (0 ∷ 1 ∷ 0 ∷ 1 ∷ [])
              (sync_note checks session first ∷ sync_note checks session second ∷ [])
              s
            ≡ (done (success (next server first)) ∷ done (success (next server second)) ∷ [], s4)
    unfolding push_result
    scheduled r r' w w' =
        let accepted =
          reconcile_note-eq checks same_first below
            (reconcile_note-Reconciled checks first (some server)) in
        let accepted' =
          reconcile_note-eq checks same_second below
            (reconcile_note-Reconciled checks second (some server)) in
        rw (syncing first own_first, syncing second own_second)
          (rw (r, r') (rw (accepted, accepted') (rw (w, w') refl)))

  -- What a lookup returns is stored under the identifier that it asks for, and nothing changes.
  looked_up :
      {h : Host} (p : IsPostgres h) (note server : Note) (s : h.State)
      → (h.answer (sql (select_note session note)) s).0 ≡ ok (server ∷ [])
      → In server (p.tables s).notes
        × (server.id ≡ note.id)
        × (p.tables (h.answer (sql (select_note session note)) s).1 ≡ p.tables s)
  looked_up {h} p note server s e =
      let (now, (found, same)) = rw e at (p.executes (select_note session note) s) in
      let hit = (found-All _ _ found).0 in (hit.0, ground arith, same)

-- Two devices of one user that push one note at the server's version, below the last one, are both
-- told that they have stored the next version, if both lookups are answered, by the server's note,
-- before the upserts, and the upserts are answered too. The row of that identifier then holds what
-- the second device sent, and no row of the identifier holds anything else: what the first one sent
-- is lost.
pub schedule-sync_note :
    {h : Host} (p : IsPostgres h) (checks : Bool) (session : AuthUser) (first second server : Note)
    {rows rows' : List Note} (s : h.State)
    → first.user_id ≡ session.user_id
    → second.user_id ≡ session.user_id
    → first.version ≡ server.version
    → second.version ≡ server.version
    → server.version ≢ i32_max
    → let (r, s1) = h.answer (sql (select_note session first)) s in
      let (r', s2) = h.answer (sql (select_note session second)) s1 in
      let (w, s3) = h.answer (sql (upsert_note (next server first))) s2 in
      let (w', s4) = h.answer (sql (upsert_note (next server second))) s3 in
      r ≡ ok (server ∷ [])
      → r' ≡ ok (server ∷ [])
      → w ≡ ok rows
      → w' ≡ ok rows'
      → let (tasks, s') =
          schedule h
            (0 ∷ 1 ∷ 0 ∷ 1 ∷ [])
            (sync_note checks session first ∷ sync_note checks session second ∷ [])
            s in
        (tasks ≡ done (success (next server first)) ∷ done (success (next server second)) ∷ [])
        × ((now : DateTime) × In
              (overwritten_note now server (next server second))
              (p.tables s').notes)
        × All (Holds (next server second)) (filter (λ n. n.id == second.id) (p.tables s').notes)
schedule-sync_note {h} p checks session first second server s own own' same same' below r r' w w' =
    let s1 = (h.answer (sql (select_note session first)) s).1 in
    let s2 = (h.answer (sql (select_note session second)) s1).1 in
    let s3 = (h.answer (sql (upsert_note (next server first))) s2).1 in
    let s4 = (h.answer (sql (upsert_note (next server second))) s3).1 in
    let (here, first_id, kept) = looked_up checks session p first server s r in
    let (here', second_id, kept') = looked_up checks session p second server s1 r' in
    let (at, written, only) =
      rewritten (next server first) server (p.tables s2) (p.tables s3)
        (subst (λ (d : Tables). In server d.notes) (sym kept') here') first_id
        (rw w at (p.executes (upsert_note (next server first)) s2)) in
    let (at', written', only') =
      rewritten (next server second) (overwritten_note at server (next server first)) (p.tables s3)
        (p.tables s4) written second_id
        (rw w' at (p.executes (upsert_note (next server second)) s3)) in
    rw (scheduled checks session h first second server s own own' same same' below r r' w w')
      (refl, (at', written'), only')
