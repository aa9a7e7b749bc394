-- ===== src/Tests/Auth.antt =====
-- The handlers of authentication on the small database.
use mathlib.Core.List.Permᴰ
use nyrex.Prelude.{
  ◌<◌, arith, ℕ, ◌+◌, ◌*◌, true, false, ◌≡◌, ◌≢◌, refl, ap, ◌∙◌, sym, some, [], ◌∷◌, inl, inr, ok,
  err,
}
use nyrex.Prelude.Text.{str_eq, str_eq_iff}
use nyrex.Core.Models.{
  LoginRequest, RegisterRequest, RefreshRequest, AuthResponse, RefreshToken, DateTime,
}
use nyrex.Effect.Host.{run}
use nyrex.Effect.Clock.{Meets, Anytime}
use nyrex.Effect.Memory.{memory, memory-IsPostgres, reply}
use nyrex.Api.AuthUtils.{hash_token}
use nyrex.Api.Response.{ok_200, created_201, unauthorized_401, conflict_409, reject}
use nyrex.Api.Routes.Auth.{register, login, refresh}
use nyrex.Api.Routes.Auth.Login.{LoginOutcome, login-LoginOutcome}
use nyrex.Api.Routes.Auth.Register.{RegisterOutcome, register-RegisterOutcome}
use nyrex.Api.Routes.Auth.Refresh.{RefreshOutcome, refresh-RefreshOutcome}
use nyrex.Api.Routes.Auth.Replay.{IsOneToken, Refused, refresh-refresh}
use nyrex.Api.Routes.Auth.Return.{LetIn, login-register}
use nyrex.Tests.Toy.{toy, toy-IsLawful, state, store, token, sign, to_string, ones}

abbrev pub credentials : LoginRequest
credentials = record { email = "alice@nyrex.dev"; password = "hunter2" }

abbrev newcomer : RegisterRequest
newcomer = record { email = "carol@nyrex.dev"; password = "swordfish"; display_name = some "Carol" }

abbrev pub old_token : RefreshRequest
old_token = record { refresh_token = "11." }

-- The answer for Alice, with the access token of one time.
abbrev pub session : ℕ → AuthResponse
session now = record {
  access_token = sign (record { sub = to_string 1; iat = now; exp = now + 900 });
  refresh_token = to_string 40;
  token_type = "Bearer";
  expires_in = 900;
}

abbrev wrong_password : LoginRequest
wrong_password = record { email = "alice@nyrex.dev"; password = "hunter3" }

run-login :
    let (result, s') = run memory (login toy state credentials) store in
    (result ≡ some (ok (ok_200, session 1001)))
    × (s'.tables.refresh_tokens
        ≡ record {
          id = 41;
          user_id = 1;
          token_hash = to_string 40;
          expires_at = 1001 + 30 * 86400;
          revoked = false;
          created_at = 1001;
        }
          ∷ token 30 1 "11."
          ∷ [])
unfolding login reply
run-login = (refl, refl)

run-login_wrong :
    (run memory (login toy state wrong_password) store).0
    ≡ some (err (reject unauthorized_401 "Invalid email or password"))
unfolding login reply
run-login_wrong = refl

run-register_taken :
    (run memory (register toy state (record newcomer { email = "bob@nyrex.dev" })) store).0
    ≡ some (err (reject conflict_409 "Email already registered"))
unfolding register reply
run-register_taken = refl

login-LoginOutcome_example :
    let (result, s') = run memory (login toy state credentials) store in
    LoginOutcome toy state credentials store.tables result s'.tables
login-LoginOutcome_example = login-LoginOutcome memory-IsPostgres toy state credentials store

register-RegisterOutcome_example :
    let (result, s') = run memory (register toy state newcomer) store in
    RegisterOutcome toy state newcomer store.tables result s'.tables
register-RegisterOutcome_example =
    register-RegisterOutcome memory-IsPostgres toy state newcomer store

abbrev IsEarly : DateTime → Type 0
IsEarly now = now < 5000

exchange_run : Meets memory-IsPostgres Anytime IsEarly (refresh toy state old_token) store
unfolding refresh reply
exchange_run = (
  (1000, omega arith, (Permᴰ.refl _, refl)),
  ((1001, omega arith, (Permᴰ.refl _, refl)), (tt, ((1002, omega arith, (refl, refl, refl)), tt))),
)

refresh-RefreshOutcome_example :
    let (result, s') = run memory (refresh toy state old_token) store in
    RefreshOutcome toy state IsEarly old_token store.tables result s'.tables
refresh-RefreshOutcome_example =
    refresh-RefreshOutcome memory-IsPostgres toy state IsEarly old_token store exchange_run

one_token : IsOneToken (hash_token toy "11.") store.tables
one_token a b (inl e) (inl f) = λ same_a same_b. ap (λ (r : RefreshToken). r.id) (e ∙ sym f)
one_token a b (inl e) (inr f) = absurd f
one_token a b (inr e) f = absurd e

exchange_succeeds :
    (run memory (refresh toy state old_token) store).0 ≡ some (ok (ok_200, session 1002))
unfolding refresh reply
exchange_succeeds = refl

fresh_differs : hash_token toy (to_string 40) ≢ hash_token toy "11."
unfolding hash_token ones
fresh_differs e =
    let claimed : str_eq (to_string 40) "11." ≡ true = (str_eq_iff _ _).1 e in
    let found : str_eq (to_string 40) "11." ≡ false = refl in cc (claimed, found)

refresh-refresh_example :
    let s' = (run memory (refresh toy state old_token) store).1 in
    let (again, s'') = run memory (refresh toy state old_token) s' in
    Refused again × (s''.tables ≡ s'.tables)
refresh-refresh_example =
    refresh-refresh memory-IsPostgres toy state old_token store one_token exchange_succeeds
      fresh_differs

abbrev carols_session : AuthResponse
carols_session = record {
  access_token = sign (record { sub = to_string 40; iat = 1002; exp = 1902 });
  refresh_token = to_string 41;
  token_type = "Bearer";
  expires_in = 900;
}

registration_succeeds :
    (run memory (register toy state newcomer) store).0 ≡ some (ok (created_201, carols_session))
unfolding register reply
registration_succeeds = refl

login-register_example :
    LetIn
      (run memory
        (login toy state (record { email = "carol@nyrex.dev"; password = "swordfish" }))
        (run memory (register toy state newcomer) store).1).0
login-register_example =
    login-register memory-IsPostgres toy-IsLawful state newcomer store registration_succeeds
