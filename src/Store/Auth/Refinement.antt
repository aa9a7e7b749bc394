-- ===== src/Store/Auth/Refinement.antt =====
-- crates/store/src/pg/auth.rs: the PostgreSQL store keeps the promises of a registry.
mod Lookups
mod Writes
use nyrex.Prelude.{
  ◌≡◌, refl, sym, ap, ◌∙◌, subst, String, Bool, true, false, ◌&&◌, not, ltb, ◌==◌, ==_iff, Option,
  none, some, List, Permᴰ, map as map_list, Option-cases, filter, [], ◌∷◌, Result, ok, err,
  if◌then◌else◌, inl, inr, Bool-cases, In, In-perm, In-filter, found-All, cons-injective_left,
  arith,
}
use mathlib.Core.Option.{map}
use nyrex.Prelude.Text.{str_eq, str_eq_iff, str_eq_refl}
use nyrex.Core.Error.{CoreError}
use nyrex.Core.Models.{Uuid, DateTime, User, RefreshToken}
use nyrex.Effect.Table.{Table, Tables, meets_constraints, put_table, get_table}
use nyrex.Effect.Program.{Program}
use nyrex.Effect.Host.{Host, run, IsPostgres}
use nyrex.Effect.Logic.{Ensures, Ensures-run}
use nyrex.Effect.Permits.{Change, either, row_id-Change}
use nyrex.Effect.Schema.{IsWellFormed}
use nyrex.Effect.Schema.Statements.{put_row, changed_rows}
use nyrex.Effect.Calls
use nyrex.Effect.Calls.{AllKept, perform_all, perform_all-Ensures}
use nyrex.Store.Auth.{
  create_user, get_user_by_email, store_refresh_token, get_valid_refresh_token, revoke,
  revoke_refresh_token, revoke_all_user_tokens,
}
use nyrex.Store.Auth.Spec.{
  Registry, Op, create, find, open_session, find_session, close, close_all, Reply, registered,
  account_found, session_found, carried_out, Same, SameSessions, SameAccounts, new_user, IsOpen,
  Finds, closed_of, Behaves, failed, created, found, opened, checked, ended, ended_all, perform,
}
use nyrex.Effect.Schema.Lookup.{
  first, first-In, first-none, In-first, first-map, IsKeyed-unique, IsDistinct-unique,
}
use nyrex.Store.Auth.Directory.{registry}
use nyrex.Store.Auth.Refinement.Lookups.{Kept, find-Kept, find_session-Kept}
use nyrex.Store.Auth.Refinement.Writes.{open_session-Kept, create-Kept, close-Kept, close_all-Kept}

perform-Kept : (op : Op) (d : Tables) → IsWellFormed d → Ensures (perform op) (Kept op d) d
perform-Kept (create id email password_hash display_name) d wf =
    create-Kept d wf id email password_hash display_name
perform-Kept (find email) d wf = find-Kept d wf email
perform-Kept (open_session token) d wf = open_session-Kept d wf token
perform-Kept (find_session token_hash) d wf = find_session-Kept d wf token_hash
perform-Kept (close token_id) d wf = close-Kept d wf token_id
perform-Kept (close_all user_id) d wf = close_all-Kept d wf user_id

-- Any run of calls of the methods of the account store is a run of a registry of accounts by address
-- and sessions by identifier: each answer is one that the registry may give at that moment, an error
-- leaves it alone, and the database stands for the registry that the run leaves, when the database
-- meets the constraints of the migrations, which it does again in the end. No call panics.
pub auth_store-Runs :
    {h : Host} (p : IsPostgres h) (ops : List Op) (s : h.State)
    → IsWellFormed (p.tables s)
    → let (replies, s') = run h (perform_all perform ops) s in
      AllKept Behaves registry ops (p.tables s) replies (p.tables s')
auth_store-Runs p ops s wf =
    Ensures-run p (AllKept Behaves registry ops (p.tables s)) (perform_all perform ops) s
      (perform_all-Ensures Behaves registry perform perform-Kept ops (p.tables s) wf)
