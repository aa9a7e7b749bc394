-- ===== src/Api/Routes/Auth/Session.antt =====
-- services/api/src/routes/auth.rs and middleware/auth.rs: a session that a login has opened passes
-- the layer in front of the protected routes.
use nyrex.Prelude.{
  ℕ, ◌+◌, ◌^◌, ◌<◌, ◌≤◌, ◌≡◌, refl, sym, subst, ◌<>◌, true, false, Option, none, some, [], ◌∷◌, inl,
  inr, In, Result, ok, err, Result-cases, found-All, arith,
}
use nyrex.Prelude.Int.{pos}
use nyrex.Prelude.Text.{str_eq, str_eq_iff}
use nyrex.Core.Models.{Uuid, DateTime, User, LoginRequest, AuthResponse}
use nyrex.Effect.Table.{Tables}
use nyrex.Effect.Program.{Program, utc_now}
use nyrex.Effect.Handler.{lifted}
use nyrex.Effect.Host.{Host, run, IsPostgres}
use nyrex.Effect.Clock.{Meets, Anytime, EnsuresAt, EnsuresAt-run}
use nyrex.Api.Libraries.{Libraries, IsLawful, IsKeyPair}
use nyrex.Api.AuthUtils.{verify_password, hash_token}
use nyrex.Api.Jwt.{encode_token}
use nyrex.Api.Response.{AppState, Rejection, StatusCode}
use nyrex.Api.Middleware.{AuthUser, require_auth}
use nyrex.Api.Middleware.Guards.{require_auth-encode_token}
use nyrex.Api.Routes.Auth.{
  access_claims, access_expires_in, refresh_record, generate_token_pair, login_as, login,
}

-- A time of the fifteen minutes that begin with the Unix second `first`.
abbrev pub IsWithin : Libraries → ℕ → DateTime → Type 0
IsWithin L first now =
    (k : ℕ) × (L.timestamp now ≡ pos k) × ((first ≤ k) × (k < first + access_expires_in))

module _ (L : Libraries) (state : AppState) (T : DateTime → Type 0) where
  -- At a time of the clock, an access token of the user's was signed and the refresh token stored.
  abbrev pub IsIssued : Uuid → AuthResponse → Tables → Type 0
  IsIssued user_id response d =
      (now : DateTime) × T now
      × (encode_token L (access_claims L user_id now) state.jwt_private_key
          ≡ ok response.access_token)
      × ((id : Uuid) × In (refresh_record L id user_id (hash_token L response.refresh_token) now)
            d.refresh_tokens)

  -- A session is one of a user with the address.
  abbrev pub SignedIn :
      Tables
      → LoginRequest
      → Option (Result (StatusCode × AuthResponse) Rejection)
      → Tables
      → Type 0
  SignedIn d body (some (ok (status, response))) e =
      (user : User) × In user d.users × (user.email ≡ body.email) × IsIssued user.id response e
  SignedIn d body (some (err rejection)) e = Unit {0}
  SignedIn d body none e = Unit {0}

  module _ (d : Tables) (body : LoginRequest) where
    login_as-EnsuresAt :
        (user : User) (d' : Tables)
        → In user d.users
        → user.email ≡ body.email
        → EnsuresAt T Anytime (login_as L state body user) (SignedIn d body) d'
    unfolding login_as generate_token_pair
    login_as-EnsuresAt user d' found same =
        elim (Result-cases (verify_password L body.password user.password_hash)) [
          | inr (m, e) ↦ rw (e, EnsuresAt) tt
          | inl (false, e) ↦ rw (e, EnsuresAt) tt
          | inl (true, e) ↦
              rw (e, EnsuresAt)
                λ now within.
                  elim (Result-cases
                    (encode_token L (access_claims L user.id now) state.jwt_private_key)) [
                      | inr (m, f) ↦ rw (f, EnsuresAt) tt
                      | inl (token, f) ↦
                          rw (f, EnsuresAt)
                            λ raw id. (elim [
                              | err m ↦ λ d'' same. tt
                              | ok rows ↦ λ d'' (at, anytime, (legal, row, stored)). (
                                user,
                                found,
                                same,
                                (
                                  now,
                                  within,
                                  f,
                                  (
                                    id,
                                    subst
                                        (λ e.
                                          In
                                            (refresh_record L id user.id
                                              (hash_token L (L.uuid_to_string raw)) now)
                                            e.refresh_tokens)
                                        (sym stored) (inl refl),
                                  ),
                                ),
                              )
                            ])
                    ]
        ]

    pub login-EnsuresAt : EnsuresAt T Anytime (login L state body) (SignedIn d body) d
    unfolding login
    login-EnsuresAt = elim [
      | err m ↦ λ d' same. tt
      | ok [] ↦ λ d' (now, anytime, (found, same)). tt
      | ok (user ∷ others) ↦ λ d' (now, anytime, (found, same)).
          let row = (found-All (λ (u : User). str_eq u.email body.email) d.users found).0 in
          login_as-EnsuresAt user d' row.0 ((str_eq_iff _ _).0 row.1)
    ]

module _ {h : Host} (p : IsPostgres h) (L : Libraries) (state : AppState) (T : DateTime → Type 0)
    (body : LoginRequest) {status : StatusCode} {response : AuthResponse} (s : h.State) where
  -- A login that succeeded has signed its user in.
  pub login-SignedIn :
      Meets p T Anytime (login L state body) s
      → (run h (login L state body) s).0 ≡ some (ok (status, response))
      → SignedIn L state T
          (p.tables s)
          body
          (some (ok (status, response)))
          (p.tables (run h (login L state body) s).1)
  login-SignedIn reads opened =
      subst
        (λ r. SignedIn L state T (p.tables s) body r (p.tables (run h (login L state body) s).1))
        opened
        (EnsuresAt-run T Anytime p (SignedIn L state T (p.tables s) body) (login L state body) s
          reads (login-EnsuresAt L state T (p.tables s) body))

-- After a login that succeeded, its access token gets its bearer through the layer, as a user that
-- was stored under the login's address: whatever has happened to the database and whatever the route,
-- the route runs for that user, if the times that the login and the layer read from the clock lie in
-- one span of fifteen minutes, with a matching pair of keys.
pub require_auth-login :
    {h : Host} (p : IsPostgres h) {L : Libraries}
    → IsLawful L
    → (state : AppState) → IsKeyPair L state.jwt_private_key state.jwt_public_key
    → (first : ℕ) → first + (access_expires_in + access_expires_in) < 2 ^ 64
    → (body : LoginRequest) {status : StatusCode} {response : AuthResponse} (s s' : h.State)
    → Meets p (IsWithin L first) Anytime (login L state body) s
    → IsWithin L first (h.answer utc_now s').0
    → (run h (login L state body) s).0 ≡ some (ok (status, response))
    → {A : Type 0} (next : AuthUser → Program A)
    → (user : User) × In user (p.tables s).users
      × (user.email ≡ body.email)
      × (run h (require_auth L state next (some ("Bearer " <> response.access_token))) s'
          ≡ lifted (run h (next (record { user_id = user.id })) (h.answer utc_now s').1))
require_auth-login {h} p {L} lawful state pair first small body {status} {response} s s' reads
      now_reads opened next =
    let (user, found, same, (now, (k, start, (low, high)), signed, stored)) =
      login-SignedIn p L state (IsWithin L first) body s reads opened in
    let (j, current, (after, before)) = now_reads in
    (
      user,
      found,
      same,
      require_auth-encode_token h lawful state pair next user.id now response.access_token s' k j
          signed start (omega arith) current (omega arith),
    )
