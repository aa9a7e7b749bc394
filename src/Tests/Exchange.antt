-- ===== src/Tests/Exchange.antt =====
-- Two exchanges of the one token of the small database.
use nyrex.Prelude.{◌≡◌, refl, Option, List, [], ◌∷◌, Result, ok}
use nyrex.Core.Models.{RefreshToken, RefreshRequest, AuthResponse}
use nyrex.Effect.Table.{refresh_tokens}
use nyrex.Effect.Statement.{Rows, select}
use nyrex.Effect.Handler.{Handler}
use nyrex.Effect.Host.{run}
use nyrex.Effect.Program.{sql}
use nyrex.Effect.Memory.{Memory, memory, memory-IsPostgres, reply}
use nyrex.Effect.Tasks.Schedule.{schedule}
use nyrex.Api.AuthUtils.{hash_token}
use nyrex.Api.Response.{StatusCode, Rejection}
use nyrex.Api.Routes.Auth.{refresh, rotate}
use nyrex.Api.Routes.Auth.Race.{Exchanged, Explained, schedule-refresh}
use nyrex.Api.Routes.Auth.Refresh.{presented}
use nyrex.Tests.Toy.{toy, state, token, store, ones}

abbrev body : RefreshRequest
body = record { refresh_token = "11." }

abbrev only_token : RefreshToken
only_token = token 30 1 "11."

abbrev looked_up : Memory → Rows refresh_tokens × Memory
looked_up s = memory.answer (sql {t = refresh_tokens} (select (presented toy body))) s

found_by_first : (looked_up store).0 ≡ ok (only_token ∷ [])
unfolding reply hash_token ones
found_by_first = refl

found_by_second : (looked_up (looked_up store).1).0 ≡ ok (only_token ∷ [])
unfolding reply hash_token ones
found_by_second = refl

abbrev both : List (Handler (StatusCode × AuthResponse) Rejection) × Memory
both = schedule memory (0 ∷ 1 ∷ []) (refresh toy state body ∷ refresh toy state body ∷ []) store

abbrev first : Option (Result (StatusCode × AuthResponse) Rejection) × Memory
first = run memory (rotate toy state only_token) both.1

abbrev second : Option (Result (StatusCode × AuthResponse) Rejection) × Memory
second = run memory (rotate toy state only_token) first.1

schedule-refresh_example :
    (both.0 ≡ rotate toy state only_token ∷ rotate toy state only_token ∷ [])
    × Exchanged toy state only_token store.tables first.0 first.1.tables
    × Explained memory toy state only_token both.1 first.0
    × Exchanged toy state only_token first.1.tables second.0 second.1.tables
    × Explained memory toy state only_token first.1 second.0
schedule-refresh_example =
    schedule-refresh memory-IsPostgres toy state body only_token store found_by_first
      found_by_second
