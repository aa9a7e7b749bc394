-- ===== src/Tests/Guards.antt =====
-- The layer of authentication, in front of a route that answers with the user.
use nyrex.Prelude.{String, ◌<>◌, ◌≡◌, refl, some, ok, arith}
use nyrex.Prelude.Int.{pos}
use nyrex.Core.Models.{Uuid}
use nyrex.Effect.Host.{run}
use nyrex.Effect.Handler.{lifted}
use nyrex.Effect.Program.{Program, done, utc_now}
use nyrex.Effect.Memory.{memory, reply}
use nyrex.Api.Jwt.{encode_token}
use nyrex.Api.Middleware.{AuthUser, require_auth}
use nyrex.Api.Middleware.Guards.{require_auth-encode_token}
use nyrex.Api.Routes.Auth.{access_claims}
use nyrex.Tests.Toy.{toy, toy-IsLawful, toy-IsKeyPair, state, store, sign}

abbrev bearer : AuthUser → Program Uuid
bearer user = done user.user_id

abbrev issued : String
issued = sign (access_claims toy 1 500)

signed : encode_token toy (access_claims toy 1 500) state.jwt_private_key ≡ ok issued
unfolding encode_token
signed = refl

at_thousand : toy.timestamp (memory.answer utc_now store).0 ≡ pos 1000
unfolding reply
at_thousand = refl

require_auth-encode_token_example :
    run memory (require_auth toy state bearer (some ("Bearer " <> issued))) store
    ≡ lifted (run memory (bearer (record { user_id = 1 })) (memory.answer utc_now store).1)
require_auth-encode_token_example =
    require_auth-encode_token memory toy-IsLawful state toy-IsKeyPair bearer 1 500 issued store 500
      1000 signed refl (omega arith) at_thousand (omega arith)
