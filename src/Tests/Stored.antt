-- ===== src/Tests/Stored.antt =====
-- What the rows of the small database hold, through interleaved requests.
use nyrex.Prelude.{
  ℕ, ◌<>◌, refl, true, Option, none, some, String, List, [], ◌∷◌, In, inl, inr, sym, subst,
}
use nyrex.Core.Models.{User, RefreshToken}
use nyrex.Effect.Rows.{AllRows}
use nyrex.Effect.Table.{users, refresh_tokens}
use nyrex.Effect.Memory.{memory, memory-IsPostgres, Memory}
use nyrex.Effect.Program.{Program}
use nyrex.Effect.Tasks.Schedule.{schedule, schedule-Steps}
use nyrex.Api.AuthUtils.{hash_token}
use nyrex.Api.Routes.Auth.{access_claims}
use nyrex.Api.Server.{Call, Answer, post_register, post_refresh, post_sync_notes}
use nyrex.Api.Server.Interleaving.{tasks}
use nyrex.Api.Server.Stored.{IsHashed, tasks-IsHashed}
use nyrex.Tests.Toy.{toy, state, note, token, store, sign, ones}

-- A registration, an exchange of a token, and a sync of Alice's.
abbrev calls : List (Option String × Call)
calls =
    (
      none,
      post_register
          (record { email = "carol@nyrex.dev"; password = "hunter3"; display_name = none }),
    )
    ∷ (none, post_refresh (record { refresh_token = "11." }))
    ∷ (some ("Bearer " <> sign (access_claims toy 1 500)), post_sync_notes (note 10 1 3 ∷ []))
    ∷ []

abbrev turns : List ℕ
turns = 0 ∷ 1 ∷ 2 ∷ 0 ∷ 1 ∷ 2 ∷ 0 ∷ 0 ∷ 1 ∷ 1 ∷ 2 ∷ 0 ∷ 0 ∷ 1 ∷ 1 ∷ []

abbrev ended : List (Program Answer) × Memory
ended = schedule memory turns (tasks toy state true calls) store

stored_hash : IsHashed toy refresh_tokens (token 30 1 "11.")
unfolding hash_token ones
stored_hash = (2, refl)

hashed : AllRows (IsHashed toy) store.tables
hashed = record {
  users = of_users;
  refresh_tokens = of_tokens;
  notes = λ r m. tt;
  vault_entries = λ r m. tt;
}
  where
    of_users : (u : User) → In u store.tables.users → IsHashed toy users u
    of_users u (inl e) = subst (IsHashed toy users) (sym e) ("hunter2", "", refl)
    of_users u (inr (inl e)) = subst (IsHashed toy users) (sym e) ("hunter2", "", refl)
    of_users u (inr (inr e)) = absurd e

    of_tokens :
        (r : RefreshToken) → In r store.tables.refresh_tokens → IsHashed toy refresh_tokens r
    of_tokens r (inl e) = subst (IsHashed toy refresh_tokens) (sym e) stored_hash
    of_tokens r (inr e) = absurd e

tasks-IsHashed_example : AllRows (IsHashed toy) ended.1.tables
tasks-IsHashed_example =
    tasks-IsHashed memory-IsPostgres toy state true calls
      (schedule-Steps memory turns (tasks toy state true calls) store) hashed
