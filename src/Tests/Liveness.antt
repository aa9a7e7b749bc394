-- ===== src/Tests/Liveness.antt =====
-- A batch of two notes: two statements for each and the clock.
use nyrex.Prelude.{true, Option, some, ◌<>◌, String, [], ◌∷◌}
use nyrex.Effect.Tasks.Bound.{Ends}
use nyrex.Api.Routes.Auth.{access_claims}
use nyrex.Api.Server.{Call, post_sync_notes, serve}
use nyrex.Api.Server.Bound.{serve-Ends}
use nyrex.Tests.Toy.{toy, state, sign, note}

abbrev push : Call
push = post_sync_notes (note 10 1 3 ∷ note 20 2 8 ∷ [])

abbrev header : Option String
header = some ("Bearer " <> sign (access_claims toy 1 500))

serve-Ends_example : Ends 5 (serve toy state true header push)
serve-Ends_example = serve-Ends toy state true header push
