-- ===== src/Sync/Reconcile.antt =====
-- The contract of `SyncEngine::reconcile_note`: optimistic locking on the version.
use nyrex.Prelude.{
  Bool, true, false, Option, none, some, ◌≡◌, ◌≢◌, refl, sym, subst, inl, inr, Bool-cases,
}
use nyrex.Prelude.Int.{eq_ℤ, eq_ℤ_iff, suc_ℤ, i32_max, i32_min}
use nyrex.Core.Models.{Note}
use nyrex.Sync.{SyncResult, success, conflict, increment, with_version, reconcile_note}

-- What a reconciliation may answer, without the code: the client's note is accepted as it is where
-- the server has none; an update is accepted at the server's version and moves it on by one; any
-- other version is answered by the server's note; past the last version the build decides.
pub data Reconciled (checks : Bool) (client : Note)
    : Option Note → Option (SyncResult Note) → Type 0 where
  created : Reconciled checks client none (some (success client))
  updated :
      {server : Note}
      → client.version ≡ server.version
      → server.version ≢ i32_max
      → Reconciled checks client
          (some server)
          (some (success (record client { version = suc_ℤ server.version })))
  refused :
      {server : Note}
      → client.version ≢ server.version
      → Reconciled checks client (some server) (some (conflict server))
  wrapped :
      {server : Note}
      → client.version ≡ server.version
      → server.version ≡ i32_max
      → checks ≡ false
      → Reconciled checks client
          (some server)
          (some (success (record client { version = i32_min })))
  overflowed :
      {server : Note}
      → client.version ≡ server.version
      → server.version ≡ i32_max
      → checks ≡ true
      → Reconciled checks client (some server) none

module _ (checks : Bool) (client server : Note) where
  same_version :
      client.version ≡ server.version
      → Reconciled checks client
          (some server)
          (with_version client (increment checks server.version))
  same_version same = elim (Bool-cases (eq_ℤ server.version i32_max)) [
    | inr below ↦
        rw below (updated same (λ top. cc (below, (eq_ℤ_iff server.version i32_max).1 top)))
    | inl top ↦ elim (Bool-cases checks) [
      | inl c ↦ rw (top, c) (overflowed same ((eq_ℤ_iff server.version i32_max).0 top) refl)
      | inr c ↦ rw (top, c) (wrapped same ((eq_ℤ_iff server.version i32_max).0 top) refl)
    ]
  ]

  found_note : Reconciled checks client (some server) (reconcile_note checks client (some server))
  unfolding reconcile_note
  found_note = elim (Bool-cases (eq_ℤ client.version server.version)) [
    | inl e ↦
        let same = (eq_ℤ_iff client.version server.version).0 e in
        rw e (
          subst
            (λ v. Reconciled checks client (some server) (with_version client (increment checks v)))
            (sym same) (same_version same))
    | inr e ↦ rw e (refused (λ same. cc (e, (eq_ℤ_iff client.version server.version).1 same)))
  ]

-- A note that the server does not have is accepted as it is. A note at the version of the server's is
-- accepted at the next version, and a note at any other version is answered by the server's. At the
-- last version of an i32 the increment panics with overflow checks, and wraps without them.
pub reconcile_note-Reconciled :
    (checks : Bool) (client : Note) (found : Option Note)
    → Reconciled checks client found (reconcile_note checks client found)
unfolding reconcile_note
reconcile_note-Reconciled checks client none = created
reconcile_note-Reconciled checks client (some server) = found_note checks client server

-- An accepted note has the identifier that the client sent.
pub Reconciled-id :
    {checks : Bool} {client server u : Note}
    → Reconciled checks client (some server) (some (success u))
    → u.id ≡ client.id
Reconciled-id (updated same below) = refl
Reconciled-id (wrapped same top c) = refl
