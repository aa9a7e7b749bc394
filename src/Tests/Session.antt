-- ===== src/Tests/Session.antt =====
-- Alice logs in and makes a request to a protected route.
use mathlib.Core.List.Permᴰ
use nyrex.Prelude.{◌≡◌, refl, ap, inl, inr, ◌<◌, ◌<>◌, some, ok, arith, In}
use nyrex.Core.Models.{User, RefreshToken, DateTime}
use nyrex.Effect.Program.{Program, utc_now, done}
use nyrex.Effect.Handler.{lifted}
use nyrex.Effect.Host.{run}
use nyrex.Effect.Clock.{Meets, Anytime}
use nyrex.Effect.Memory.{Memory, memory, memory-IsPostgres, reply}
use nyrex.Core.Models.{Uuid}
use nyrex.Api.Response.{ok_200}
use nyrex.Api.Middleware.{AuthUser, require_auth}
use nyrex.Api.Routes.Auth.{login, refresh}
use nyrex.Api.Routes.Auth.Session.{IsWithin, require_auth-login}
use nyrex.Api.Routes.Auth.Return.{LetIn}
use nyrex.Api.Routes.Auth.Replay.{Refused}
use nyrex.Api.Routes.Auth.Expiry.{IsExpired, refresh_expired}
use nyrex.Api.Routes.Auth.Renewal.{renewal, refresh-login}
use nyrex.Tests.Toy.{ones, toy, toy-IsLawful, toy-IsKeyPair, state, store}
use nyrex.Tests.Auth.{old_token, credentials, session}

abbrev whoami : AuthUser → Program Uuid
whoami user = done user.user_id

abbrev after : Memory
after = (run memory (login toy state credentials) store).1

login_times :
    Meets memory-IsPostgres (IsWithin toy 1000) Anytime (login toy state credentials) store
unfolding login reply
login_times = (
  (1000, tt, (Permᴰ.refl _, refl)),
  ((1001, refl, (omega arith, omega arith)), ((1001, tt, (refl, refl, refl)), tt)),
)

layer_time : IsWithin toy 1000 (memory.answer utc_now after).0
unfolding login reply
layer_time = (1002, refl, (omega arith, omega arith))

login_succeeds :
    (run memory (login toy state credentials) store).0 ≡ some (ok (ok_200, session 1001))
unfolding login reply
login_succeeds = refl

require_auth-login_example :
    (user : User) × In user store.tables.users
    × (user.email ≡ credentials.email)
    × (run memory
          (require_auth toy state whoami (some ("Bearer " <> (session 1001).access_token)))
          after
        ≡ lifted
            (run memory (whoami (record { user_id = user.id })) (memory.answer utc_now after).1))
require_auth-login_example =
    require_auth-login memory-IsPostgres toy-IsLawful state toy-IsKeyPair 1000 (omega arith)
      credentials store after login_times layer_time login_succeeds whoami

abbrev IsEarly : DateTime → Type 0
IsEarly now = now < 2000

abbrev IsLate : DateTime → Type 0
IsLate now = 1000 < now

login_run : Meets memory-IsPostgres IsLate Anytime (login toy state credentials) store
unfolding login reply
login_run = ((1000, tt, (Permᴰ.refl _, refl)), (omega arith, ((1001, tt, (refl, refl, refl)), tt)))

refresh_run :
    Meets memory-IsPostgres Anytime IsEarly (refresh toy state (renewal (session 1001))) after
unfolding login refresh reply ones
refresh_run = (
  (1002, omega arith, (Permᴰ.refl _, refl)),
  ((1003, omega arith, (Permᴰ.refl _, refl)), (tt, ((1004, omega arith, (refl, refl, refl)), tt))),
)

refresh-login_example : LetIn (run memory (refresh toy state (renewal (session 1001))) after).0
refresh-login_example =
    refresh-login memory-IsPostgres toy state IsLate IsEarly (λ created now late early. omega arith)
      credentials store after login_run login_succeeds (λ token stored. stored) refresh_run

-- A thousand after the expiry of Alice's stored token.
abbrev much_later : Memory
much_later = record store { clock = 6000 }

abbrev IsPast : DateTime → Type 0
IsPast now = 5000 < now

store-IsExpired : IsExpired toy IsPast old_token store.tables
store-IsExpired t (inl e) same now past =
    rw (ap (λ (r : RefreshToken). r.expires_at) e) (omega arith)
store-IsExpired t (inr e) same now past = absurd e

old_refresh_run : Meets memory-IsPostgres Anytime IsPast (refresh toy state old_token) much_later
unfolding refresh reply
old_refresh_run = ((6000, omega arith, (Permᴰ.refl _, refl)), tt)

refresh_expired_example :
    let (r, s') = run memory (refresh toy state old_token) much_later in
    Refused r × (s'.tables ≡ store.tables)
refresh_expired_example =
    refresh_expired memory-IsPostgres toy state IsPast old_token much_later store-IsExpired
      old_refresh_run
