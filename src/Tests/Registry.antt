-- ===== src/Tests/Registry.antt =====
-- A run of calls of the account store on the small database.
use nyrex.Prelude.{◌≡◌, refl, none, some, List, [], ◌∷◌, ok}
use nyrex.Effect.Host.{run}
use nyrex.Effect.Memory.{memory, memory-IsPostgres, reply}
use nyrex.Effect.Calls.{AllKept, perform_all}
use nyrex.Store.Auth.Spec.{
  Op, find, open_session, find_session, close, close_all, account_found, session_found, carried_out,
  perform, Behaves,
}
use nyrex.Store.Auth.{
  get_user_by_email, store_refresh_token, get_valid_refresh_token, revoke_refresh_token,
  revoke_all_user_tokens,
}
use nyrex.Store.Auth.Directory.{registry}
use nyrex.Store.Auth.Refinement.{auth_store-Runs}
use nyrex.Tests.Toy.{account, token, store, store-IsWellFormed}

-- Alice opens a second session, closes the first, and leaves all of them.
abbrev ops : List Op
ops =
    find "alice@nyrex.dev"
    ∷ open_session (token 31 1 "111.")
    ∷ close 30
    ∷ find_session "11."
    ∷ find_session "111."
    ∷ close_all 1
    ∷ find_session "111."
    ∷ []

run-ops :
    (run memory (perform_all perform ops) store).0
    ≡ some (
        ok (account_found (some (account 1 "alice@nyrex.dev")))
        ∷ ok carried_out
        ∷ ok carried_out
        ∷ ok (session_found none)
        ∷ ok (session_found (some (token 31 1 "111.")))
        ∷ ok carried_out
        ∷ ok (session_found none)
        ∷ [])
unfolding perform_all perform reply get_user_by_email store_refresh_token get_valid_refresh_token
    revoke_refresh_token revoke_all_user_tokens
run-ops = refl

auth_store-Runs_example :
    let (replies, s') = run memory (perform_all perform ops) store in
    AllKept Behaves registry ops store.tables replies s'.tables
auth_store-Runs_example = auth_store-Runs memory-IsPostgres ops store store-IsWellFormed
