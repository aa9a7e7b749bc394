-- ===== src/Api/Routes/Auth/Login.antt =====
-- What `login` does to the database, result by result.
use nyrex.Prelude.{
  true, false, Option, none, some, [], ◌∷◌, ◌≡◌, refl, sym, subst, ok, err, Result, ◌⊎◌, inl, inr,
  In, Result-cases, found-All,
}
use nyrex.Prelude.Text.{str_eq, str_eq_iff}
use nyrex.Core.Models.{User, LoginRequest, AuthResponse}
use nyrex.Effect.Table.{Tables}
use nyrex.Effect.Handler.{continue}
use nyrex.Effect.Host.{Host, run, IsPostgres}
use nyrex.Effect.Logic.{Ensures, Ensures-run, Ensures-bind, Ensures-mono, Next}
use nyrex.Api.Libraries.{Libraries}
use nyrex.Api.AuthUtils.{verify_password}
use nyrex.Api.Response.{
  AppState, Rejection, StatusCode, ok_200, unauthorized_401, reject, internal_server_error_500,
}
use nyrex.Api.Routes.Auth.{generate_token_pair, login_as, login}
use nyrex.Api.Routes.Auth.Pair.{Opened, PairOutcome, generate_token_pair-Ensures, then_answer}

module _ (L : Libraries) (state : AppState) where
  -- A login succeeds for a stored user with the address of the request, whose stored hash the
  -- password verifies, and opens a session of that user. A refusal changes nothing; it is an
  -- internal error, or the one text that does not say which of the two was wrong.
  abbrev pub LoginOutcome :
      LoginRequest
      → Tables
      → Option (Result (StatusCode × AuthResponse) Rejection)
      → Tables
      → Type 0
  LoginOutcome body d none d' = ⊥
  LoginOutcome body d (some (ok (status, response))) d' =
      (status ≡ ok_200)
      × (user : User) × In user d.users
      × (user.email ≡ body.email)
      × (verify_password L body.password user.password_hash ≡ ok true)
      × Opened L state user.id d response d'
  LoginOutcome body d (some (err e)) d' =
      ((e.status ≡ internal_server_error_500)
        ⊎ (e ≡ reject unauthorized_401 "Invalid email or password"))
      × (d' ≡ d)

  module _ (body : LoginRequest) (d : Tables) where
    after_pair :
        (user : User)
        → In user d.users
        → user.email ≡ body.email
        → verify_password L body.password user.password_hash ≡ ok true
        → (result : Option (Result AuthResponse Rejection)) (d' : Tables)
        → PairOutcome L state user.id d result d'
        → Next (continue (then_answer L state ok_200)) (LoginOutcome body d) result d'
    after_pair user found same_email verified none d' o = o
    after_pair user found same_email verified (some (ok response)) d' o =
        (refl, user, found, same_email, verified, o)
    after_pair user found same_email verified (some (err e)) d' o = (inl o.0, o.1)

    login_as-Ensures :
        (user : User)
        → In user d.users
        → user.email ≡ body.email
        → Ensures (login_as L state body user) (LoginOutcome body d) d
    unfolding login_as
    login_as-Ensures user found same_email =
        elim (Result-cases (verify_password L body.password user.password_hash)) [
          | inr (m, e) ↦ rw (e, Ensures) (inl refl, refl)
          | inl (false, e) ↦ rw (e, Ensures) (inr refl, refl)
          | inl (true, e) ↦
              rw (e, Ensures)
                (Ensures-bind (continue (then_answer L state ok_200)) (LoginOutcome body d)
                  (generate_token_pair L state user.id) d
                  (Ensures-mono (after_pair user found same_email e)
                    (generate_token_pair L state user.id) d
                    (generate_token_pair-Ensures L state user.id d)))
        ]

    pub login-Ensures : Ensures (login L state body) (LoginOutcome body d) d
    unfolding login
    login-Ensures = elim [
      | err m ↦ λ d' same. (inl refl, same)
      | ok [] ↦ λ d' (now, (found, same)). (inr refl, same)
      | ok (user ∷ others) ↦ λ d' (now, (found, same)).
          let row = (found-All (λ u. str_eq u.email body.email) d.users found).0 in
          subst (Ensures (login_as L state body user) (LoginOutcome body d)) (sym same)
            (login_as-Ensures user row.0 ((str_eq_iff _ _).0 row.1))
    ]

-- A login succeeds with status 200, for a stored user with the address of the request whose stored
-- hash the password verifies: then an access token for that user was signed, the hash of a fresh
-- refresh token of that user's was stored, not revoked, for thirty days, and nothing else changed. A
-- refusal changes nothing; it is an internal error, or the one text that tells an unknown address
-- from a wrong password in no way. It never panics.
pub login-LoginOutcome :
    {h : Host} (p : IsPostgres h) (L : Libraries) (state : AppState) (body : LoginRequest)
    (s : h.State)
    → let (result, s') = run h (login L state body) s in
      LoginOutcome L state body (p.tables s) result (p.tables s')
login-LoginOutcome p L state body s =
    Ensures-run p (LoginOutcome L state body (p.tables s)) (login L state body) s
      (login-Ensures L state body (p.tables s))
