-- ===== src/Api/Routes/Auth/Renewal.antt =====
-- services/api/src/routes/auth.rs: a session that a login has opened can be renewed.
use nyrex.Prelude.{◌≡◌, refl, ◌<◌, true, some, [], ◌∷◌, In, In-perm, In-filter, ok, err, arith}
use nyrex.Prelude.Text.{str_eq_iff}
use nyrex.Core.Models.{Uuid, DateTime, RefreshToken, RefreshRequest, LoginRequest, AuthResponse}
use nyrex.Effect.Table.{Tables}
use nyrex.Effect.Handler.{◌>>=◌}
use nyrex.Effect.Host.{Host, run, IsPostgres}
use nyrex.Effect.Clock.{Meets, Anytime, EnsuresAt, EnsuresAt-run, Ensures-EnsuresAt}
use nyrex.Api.Libraries.{Libraries}
use nyrex.Api.AuthUtils.{hash_token}
use nyrex.Api.Response.{AppState, StatusCode, ok_200}
use nyrex.Api.Routes.Auth.{login, refresh, rotate, refresh_record, generate_token_pair}
use nyrex.Api.Routes.Auth.Pair.{then_answer}
use nyrex.Api.Routes.Auth.Refresh.{presented}
use nyrex.Api.Routes.Auth.Return.{LetIn, pair-LetIn}
use nyrex.Api.Routes.Auth.Session.{login-SignedIn}

-- The request that presents the refresh token of a session.
abbrev pub renewal : AuthResponse → RefreshRequest
renewal response = record { refresh_token = response.refresh_token }

module _ (L : Libraries) (state : AppState) (S : DateTime → Type 0) (body : RefreshRequest) where
  rotate-EnsuresAt :
      (token : RefreshToken) (d : Tables)
      → EnsuresAt Anytime S (rotate L state token) (λ r e. LetIn r) d
  unfolding rotate
  rotate-EnsuresAt token d = elim [
    | err m ↦ λ d' same. refl
    | ok rows ↦ λ d' revoked.
        Ensures-EnsuresAt Anytime S (λ r e. LetIn r)
          (generate_token_pair L state token.user_id >>= then_answer L state ok_200) d'
          (pair-LetIn L state token.user_id d')
  ]

  -- A lookup that finds nothing comes too late for every stored token.
  refresh-EnsuresAt :
      (user_id id : Uuid) (created : DateTime) (d : Tables)
      → ((now : DateTime) → S now → now < L.add_days created 30)
      → In (refresh_record L id user_id (hash_token L body.refresh_token) created) d.refresh_tokens
      → EnsuresAt Anytime S (refresh L state body) (λ r e. LetIn r) d
  unfolding refresh
  refresh-EnsuresAt user_id id created d early stored = elim [
    | err m ↦ λ d' same. refl
    | ok [] ↦ λ d' (now, at, (found, same)).
        let token = refresh_record L id user_id (hash_token L body.refresh_token) created in
        let in_time = early now at in
        let same_hash = (str_eq_iff token.token_hash (hash_token L body.refresh_token)).1 refl in
        let meets : presented L body now token ≡ true = rw same_hash (ground arith) in
        absurd (
          In-perm token found
            (In-filter (presented L body now) token d.refresh_tokens stored meets))
    | ok (other ∷ others) ↦ λ d' found. rotate-EnsuresAt other d'
  ]

-- After a login that succeeded, presenting its refresh token opens a new session or ends in an
-- internal error, and is not refused: at any later state that still holds the tokens stored when the
-- login ended, if every time at which the database carries out the statements of the refresh comes
-- before thirty days have passed since the time that the login read from the clock.
pub refresh-login :
    {h : Host} (p : IsPostgres h) (L : Libraries) (state : AppState) (T S : DateTime → Type 0)
    → ((created now : DateTime) → T created → S now → now < L.add_days created 30)
    → (body : LoginRequest) {status : StatusCode} {response : AuthResponse} (s s' : h.State)
    → Meets p T Anytime (login L state body) s
    → (run h (login L state body) s).0 ≡ some (ok (status, response))
    → ((token : RefreshToken)
        → In token (p.tables (run h (login L state body) s).1).refresh_tokens
        → In token (p.tables s').refresh_tokens)
    → Meets p Anytime S (refresh L state (renewal response)) s'
    → LetIn (run h (refresh L state (renewal response)) s').0
refresh-login p L state T S early body {response = response} s s' reads opened kept meets =
    let (user, found, same, (now, at, signed, (id, stored))) =
      login-SignedIn p L state T body s reads opened in
    EnsuresAt-run Anytime S p (λ r e. LetIn r) (refresh L state (renewal response)) s' meets
      (refresh-EnsuresAt L state S (renewal response) user.id id now (p.tables s')
        (λ t met. early now t at met) (kept _ stored))
