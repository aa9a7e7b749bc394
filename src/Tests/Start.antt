-- ===== src/Tests/Start.antt =====
-- The start of the server in two environments.
use nyrex.Prelude.{◌≡◌, refl, String, Result, [], ◌∷◌, ok, err, if◌then◌else◌}
use nyrex.Prelude.Text.{str_eq}
use nyrex.Core.Models.{Bytes}
use nyrex.Api.Start.{start, Started, start-Started}

abbrev environment : String → Result String String
environment name =
    if str_eq name "DATABASE_URL"
    then ok "postgres://localhost/nyrex"
    else (if str_eq name "JWT_PRIVATE_KEY"
        then ok "AQ=="
        else (if str_eq name "JWT_PUBLIC_KEY" then ok "Ag==" else err "NotPresent"))

abbrev decode : String → Result Bytes String
decode text =
    if str_eq text "AQ=="
    then ok (1 ∷ [])
    else (if str_eq text "Ag==" then ok (2 ∷ []) else err "InvalidPadding")

run-start :
    start environment decode (λ url. ok tt)
    ≡ ok (record { jwt_private_key = 1 ∷ []; jwt_public_key = 2 ∷ [] })
unfolding start
run-start = refl

run-start_unset :
    start (λ name. err "NotPresent") decode (λ url. ok tt)
    ≡ err "DATABASE_URL environment variable must be set.: NotPresent"
unfolding start
run-start_unset = refl

start-Started_example :
    Started environment decode (λ url. ok tt) (start environment decode (λ url. ok tt))
start-Started_example = start-Started environment decode (λ url. ok tt)
