-- ===== src/Tests/Access.antt =====
-- Interleaved raw requests to the router of the small server.
use nyrex.Prelude.{ℕ, map, All, refl, String, true, Option, none, some, List, [], ◌∷◌, inl, inr}
use nyrex.Api.Middleware.{AuthUser}
use nyrex.Api.Middleware.Guards.{Bears}
use nyrex.Core.Models.{DateTime, Note}
use nyrex.Effect.Program.{Program}
use nyrex.Effect.Memory.{memory, memory-IsPostgres, Memory}
use nyrex.Effect.Evolution.{Evolves}
use nyrex.Effect.Tasks.Schedule.{schedule, schedule-Steps}
use nyrex.Api.Router.Statements.{IsRouted}
use nyrex.Api.Router.Interleaving.{requests-Evolves}
use nyrex.Api.Http.{HttpRequest, Response}
use nyrex.Api.Router.{app}
use nyrex.Tests.Toy.{toy, state, store}
use nyrex.Api.Router.Access.{SameContents, requests-SameContents}
use nyrex.Tests.Router.{X, dispatch, dispatch-IsDocumented, notes, push, upload}

-- A sync, one whose body holds no notes, and an upload without a header.
abbrev requests : List (HttpRequest (Option (List Note)))
requests = push (some notes) ∷ push none ∷ record upload { authorization = none } ∷ []

requests-IsRouted : All (IsRouted X toy state true) requests
requests-IsRouted = (
  (_, inr (inr (inr (inr (inr (inl refl))))), (refl, refl)),
  (
    (_, inr (inr (inr (inr (inr (inl refl))))), (refl, refl)),
    ((_, inr (inr (inr (inr (inr (inr (inl refl)))))), (refl, refl)), tt),
  ),
)

abbrev turns : List ℕ
turns = 0 ∷ 1 ∷ 0 ∷ 0 ∷ []

abbrev after_requests : List (Program (Response String)) × Memory
after_requests = schedule memory turns (map (dispatch (app X toy state true)) requests) store

requests-Evolves_example : Evolves store.tables after_requests.1.tables
requests-Evolves_example =
    requests-Evolves X toy state true dispatch-IsDocumented memory-IsPostgres requests
      requests-IsRouted
      (schedule-Steps memory turns (map (dispatch (app X toy state true)) requests) store)

-- Nobody signs in: a sync and an upload without a header, and an exchange of a token.
abbrev strangers : List (HttpRequest (Option (List Note)))
strangers =
    record (push (some notes)) { authorization = none }
    ∷ record upload { authorization = none }
    ∷ record (push none) { path = "/auth/refresh"; authorization = none }
    ∷ []

strangers-IsRouted : All (IsRouted X toy state true) strangers
strangers-IsRouted = (
  (_, inr (inr (inr (inr (inr (inl refl))))), (refl, refl)),
  (
    (_, inr (inr (inr (inr (inr (inr (inl refl)))))), (refl, refl)),
    ((_, inr (inr (inr (inl refl))), (refl, refl)), tt),
  ),
)

no_token : (now : DateTime) (user : AuthUser) → ¬ (Bears toy state none now user)
no_token now user (value, token, claims, bears, stripped, decoded, good) = cc (bears)

requests-SameContents_example :
    SameContents store.tables
      (schedule memory turns (map (dispatch (app X toy state true)) strangers) store).1.tables
requests-SameContents_example =
    requests-SameContents X toy state true dispatch-IsDocumented memory-IsPostgres strangers
      strangers-IsRouted (no_token, (no_token, (no_token, tt)))
      (schedule-Steps memory turns (map (dispatch (app X toy state true)) strangers) store)
