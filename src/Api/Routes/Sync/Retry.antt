-- ===== src/Api/Routes/Sync/Retry.antt =====
-- services/api/src/routes/sync.rs: a note that a client sends again, because it has lost the answer.
use nyrex.Prelude.{
  ◌≡◌, refl, sym, ap, ◌∙◌, subst, Bool, some, List, ◌==◌, ◌⊎◌, inl, inr, In, any-In, ==_iff,
  if◌then◌else◌, err,
}
use nyrex.Prelude.Int.{suc_ℤ, suc_ℤ-ne}
use nyrex.Core.Models.{DateTime, Note}
use nyrex.Effect.Table.{Table, Tables}
use nyrex.Effect.Statement.{DbError}
use nyrex.Effect.Program.{sql}
use nyrex.Effect.Host.{Host, run, IsPostgres}
use nyrex.Effect.Permits.{either}
use nyrex.Effect.Schema.{IsKeyed, IsWellFormed}
use nyrex.Effect.Schema.Statements.{changed_rows}
use nyrex.Store.Notes.Shelf.{shelf, In-shelf}
use nyrex.Sync.{success, conflict}
use nyrex.Api.Middleware.{AuthUser}
use nyrex.Api.Routes.Sync.{sync_note, select_note, overwritten_note}
use nyrex.Api.Routes.Sync.Outcome.{Stored, Stored-cases, Outcome, sync_note-Outcome}
use nyrex.Api.Routes.Sync.Ownership.{In-overwrite_in}
use nyrex.Api.Routes.Sync.Versions.{sync_note_stale}

-- Rows with one identifier are one row.
one_row :
    (rows : List Note) (a b : Note)
    → IsKeyed Table.notes rows
    → In a rows
    → In b rows
    → a.id ≡ b.id
    → a ≡ b
one_row rows a b k in_a in_b same =
    let at_a : shelf rows b.id ≡ some a =
      subst (λ i. shelf rows i ≡ some a) same (In-shelf rows a k in_a) in
    cc (at_a, In-shelf rows b k in_b)

-- The stored row after an update: it holds what was sent, under the next version.
abbrev pub IsWritten : Note → Note → Note → Type 0
IsWritten note server row =
    (now : DateTime) × (row
      ≡ overwritten_note now server (record note { version = suc_ℤ server.version }))

module _ (note server : Note) (d d' : Tables) (wf : IsWellFormed d) (found : In server d.notes)
    (same_id : server.id ≡ note.id) where
  abbrev next_version : Note
  next_version = record note { version = suc_ℤ server.version }

  -- The one row with the identifier is the one that was written.
  written :
      Stored next_version d d'
      → (row : Note) × IsWritten note server row × In row d'.notes × IsKeyed Table.notes d'.notes
  written stored =
      let (now, ways) = Stored-cases next_version stored in
      elim ways [
        | inr (absent, put) ↦
            let present =
              any-In (λ (n : Note). n.id == note.id) server d.notes found
                ((==_iff _ _).1 same_id) in
            absurd (cc (present, absent))
        | inl (present, put) ↦
            let row = overwritten_note now server next_version in
            (
              row,
              (now, refl),
              subst (λ (x : Tables). In row x.notes) (sym put)
                  (In-overwrite_in next_version server now d.notes found same_id),
              subst (λ (x : Tables). IsKeyed Table.notes x.notes) (sym put)
                  (changed_rows Table.notes
                    (λ r. if r.id == note.id then overwritten_note now r next_version else r) d
                    (either Table.notes (λ r. r.id == note.id)
                      (λ r. overwritten_note now r next_version) (λ r. (refl, refl, refl)))
                    wf).note_ids,
            )
      ]

-- A client that sends the same update again, since the answer to the first was lost, is told of a
-- conflict with its own write: where the first attempt stored the version after the caller's stored
-- one, the second changes nothing and shows the row with what was sent and that version, unless its
-- lookup fails, in a database that meets its constraints.
pub sync_note-sync_note :
    {h : Host} (p : IsPostgres h) (checks : Bool) (session : AuthUser) (note server : Note)
    (s : h.State)
    → IsWellFormed (p.tables s)
    → In server (p.tables s).notes
    → server.id ≡ note.id
    → server.user_id ≡ session.user_id
    → note.user_id ≡ session.user_id
    → note.version ≡ server.version
    → (run h (sync_note checks session note) s).0
      ≡ some (success (record note { version = suc_ℤ server.version }))
    → let s' = (run h (sync_note checks session note) s).1 in
      let (again, s'') = run h (sync_note checks session note) s' in
      ((m : DbError) × ((h.answer (sql (select_note session note)) s').0 ≡ err m))
      ⊎ ((row : Note) × IsWritten note server row
          × (again ≡ some (conflict row))
          × (p.tables s'' ≡ p.tables s'))
sync_note-sync_note {h} p checks session note server s wf found same_id mine own same_version
      accepted =
    let s' = (run h (sync_note checks session note) s).1 in
    let outcome =
      subst (λ r. Outcome checks session note (p.tables s) r (p.tables s')) accepted
        (sync_note-Outcome p checks session note s) in
    let (row, (now, e), stands, keyed) =
      written note server (p.tables s) (p.tables s') wf found same_id outcome.2 in
    let row_id : row.id ≡ note.id = ap (λ (n : Note). n.id) e ∙ same_id in
    let row_owner : row.user_id ≡ session.user_id = ap (λ (n : Note). n.user_id) e ∙ mine in
    let row_version : row.version ≡ suc_ℤ server.version = ap (λ (n : Note). n.version) e in
    elim (sync_note_stale p checks session note row s' own stands row_id row_owner
      (λ n (m, n_id, n_owner). one_row (p.tables s').notes n row keyed m stands (n_id ∙ sym row_id))
      (λ differs. suc_ℤ-ne server.version (sym same_version ∙ differs ∙ row_version))) [
        | inl failed ↦ inl failed
        | inr (conflicts, same) ↦ inr (row, (now, e), conflicts, same)
      ]
