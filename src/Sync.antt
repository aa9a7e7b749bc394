-- ===== src/Sync.antt =====
-- crates/sync/src/lib.rs: reconciliation of a client's note with the server's by version counters.
pub mod Reconcile
use nyrex.Prelude.{String, Bool, Option, none, some, if◌then◌else◌}
use nyrex.Prelude.Int.{ℤ, eq_ℤ, suc_ℤ, i32_max, i32_min}
use nyrex.Core.Models.{Note}

pub data SyncResult (A : Type 0) : Type 0 where
  success : A → SyncResult A
  conflict : A → SyncResult A
  error : String → SyncResult A

-- `v + 1` on an `i32`. Whether overflow is checked depends on the build's profile: with the checks
-- it panics, which is `none`, and without them it wraps.
abbrev pub increment : Bool → ℤ → Option ℤ
increment overflow_checks v =
    if eq_ℤ v i32_max then (if overflow_checks then none else some i32_min) else some (suc_ℤ v)

abbrev with_version : Note → Option ℤ → Option (SyncResult Note)
with_version note none = none
with_version note (some v) = some (success (record note { version = v }))

-- `SyncEngine::reconcile_note`
unfoldable pub reconcile_note : Bool → Note → Option Note → Option (SyncResult Note)
reconcile_note checks client_note none = some (success client_note)
reconcile_note checks client_note (some server) =
    if eq_ℤ client_note.version server.version
    then with_version client_note (increment checks client_note.version)
    else some (conflict server)
