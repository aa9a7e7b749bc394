-- ===== src/Api/Routes/Auth/Refresh.antt =====
-- What `refresh` does to the database, result by result.
use nyrex.Prelude.{
  ltb, ◌<◌, String, Bool, true, false, not, ◌&&◌, Option, none, some, [], ◌∷◌, map, ◌≡◌, refl, sym,
  subst, ok, err, Result, ◌⊎◌, inl, inr, arith, In, found-All, ◌==◌, if◌then◌else◌,
}
use nyrex.Prelude.Text.{str_eq, str_eq_iff}
use nyrex.Core.Models.{Uuid, DateTime, RefreshToken, RefreshRequest, AuthResponse}
use nyrex.Effect.Table.{Tables}
use nyrex.Effect.Handler.{Handler, ◌>>=◌, continue}
use nyrex.Effect.Host.{Host, run, IsPostgres}
use nyrex.Effect.Clock.{
  Meets, Anytime, EnsuresAt, EnsuresAt-run, Ensures-EnsuresAt, EnsuresAt-Ensures,
}
use nyrex.Effect.Logic.{Ensures, Ensures-bind, Ensures-mono, Next}
use nyrex.Store.Auth.{revoke}
use nyrex.Api.Libraries.{Libraries}
use nyrex.Api.AuthUtils.{hash_token}
use nyrex.Api.Response.{
  AppState, Rejection, StatusCode, ok_200, unauthorized_401, reject, internal_server_error_500,
}
use nyrex.Api.Routes.Auth.{generate_token_pair, rotate, refresh}
use nyrex.Api.Routes.Auth.Pair.{Opened, PairOutcome, generate_token_pair-Ensures, then_answer}

-- A stored token that a refresh may present: neither revoked nor run out at one of the times.
abbrev pub IsValidToken : (DateTime → Type 0) → String → Tables → RefreshToken → Type 0
IsValidToken S token_hash d token =
    In token d.refresh_tokens
    × (token.token_hash ≡ token_hash)
    × (token.revoked ≡ false)
    × ((now : DateTime) × S now × (now < token.expires_at))

-- The database with the rows of one identifier revoked.
abbrev pub with_revoked : Uuid → Tables → Tables
with_revoked id d = record d {
  refresh_tokens = map (λ r. if r.id == id then revoke r else r) d.refresh_tokens;
}

-- The condition of the lookup, on a stored token.
abbrev pub presented : Libraries → RefreshRequest → DateTime → RefreshToken → Bool
presented L body now r =
    str_eq r.token_hash (hash_token L body.refresh_token) && (not r.revoked && ltb now r.expires_at)

module _ (L : Libraries) (state : AppState) where
  -- The lookup is carried out at one of the times.
  abbrev pub RefreshOutcome :
      (DateTime → Type 0)
      → RefreshRequest
      → Tables
      → Option (Result (StatusCode × AuthResponse) Rejection)
      → Tables
      → Type 0
  RefreshOutcome S body d none d' = ⊥
  RefreshOutcome S body d (some (ok (status, response))) d' =
      (status ≡ ok_200)
      × (token : RefreshToken) × IsValidToken S (hash_token L body.refresh_token) d token
      × Opened L state token.user_id (with_revoked token.id d) response d'
  RefreshOutcome S body d (some (err e)) d' =
      (((e.status ≡ internal_server_error_500)
          ⊎ (e ≡ reject unauthorized_401 "Invalid or expired refresh token"))
        × (d' ≡ d))
      ⊎ ((token : RefreshToken) × IsValidToken S (hash_token L body.refresh_token) d token
          × (e.status ≡ internal_server_error_500)
          × (d' ≡ with_revoked token.id d))

  module _ (S : DateTime → Type 0) (body : RefreshRequest) (d : Tables) where
    after_pair :
        (token : RefreshToken)
        → IsValidToken S (hash_token L body.refresh_token) d token
        → (result : Option (Result AuthResponse Rejection)) (d' : Tables)
        → PairOutcome L state token.user_id (with_revoked token.id d) result d'
        → Next (continue (then_answer L state ok_200)) (RefreshOutcome S body d) result d'
    after_pair token valid none d' o = o
    after_pair token valid (some (ok response)) d' o = (refl, token, valid, o)
    after_pair token valid (some (err e)) d' o = inr (token, valid, o.0, o.1)

    pair_then_answer : RefreshToken → Handler (StatusCode × AuthResponse) Rejection
    pair_then_answer token =
        generate_token_pair L state token.user_id >>= then_answer L state ok_200

    pair_then_answer-Ensures :
        (token : RefreshToken)
        → IsValidToken S (hash_token L body.refresh_token) d token
        → Ensures (pair_then_answer token) (RefreshOutcome S body d) (with_revoked token.id d)
    unfolding pair_then_answer
    pair_then_answer-Ensures token valid =
        Ensures-bind (continue (then_answer L state ok_200)) (RefreshOutcome S body d)
          (generate_token_pair L state token.user_id) (with_revoked token.id d)
          (Ensures-mono (after_pair token valid) (generate_token_pair L state token.user_id)
            (with_revoked token.id d)
            (generate_token_pair-Ensures L state token.user_id (with_revoked token.id d)))

    rotate-EnsuresAt :
        (token : RefreshToken)
        → IsValidToken S (hash_token L body.refresh_token) d token
        → EnsuresAt Anytime S (rotate L state token) (RefreshOutcome S body d) d
    unfolding rotate pair_then_answer
    rotate-EnsuresAt token valid = elim [
      | err m ↦ λ d' same. inl (inl refl, same)
      | ok rows ↦ λ d' (now, at, (found, done)).
          subst (EnsuresAt Anytime S (pair_then_answer token) (RefreshOutcome S body d)) (sym done)
            (Ensures-EnsuresAt Anytime S (RefreshOutcome S body d) (pair_then_answer token)
              (with_revoked token.id d) (pair_then_answer-Ensures token valid))
    ]

    presented-IsValidToken :
        (now : DateTime) (token : RefreshToken)
        → S now
        → In token d.refresh_tokens
        → presented L body now token ≡ true
        → IsValidToken S (hash_token L body.refresh_token) d token
    presented-IsValidToken now token at found meets = (
      found,
      ground (arith, str_eq_iff token.token_hash (hash_token L body.refresh_token)),
      ground arith,
      (now, at, ground arith),
    )

    pub refresh-EnsuresAt : EnsuresAt Anytime S (refresh L state body) (RefreshOutcome S body d) d
    unfolding refresh
    refresh-EnsuresAt = elim [
      | err m ↦ λ d' same. inl (inl refl, same)
      | ok [] ↦ λ d' (now, at, (found, same)). inl (inr refl, same)
      | ok (token ∷ others) ↦ λ d' (now, at, (found, same)).
          let row = (found-All (presented L body now) d.refresh_tokens found).0 in
          subst (EnsuresAt Anytime S (rotate L state token) (RefreshOutcome S body d)) (sym same)
            (rotate-EnsuresAt token (presented-IsValidToken now token at row.0 row.1))
    ]

  pub refresh-Ensures :
      (body : RefreshRequest) (d : Tables)
      → Ensures (refresh L state body) (RefreshOutcome Anytime body d) d
  refresh-Ensures body d =
      EnsuresAt-Ensures (RefreshOutcome Anytime body d) (refresh L state body) d
        (refresh-EnsuresAt Anytime body d)

-- A refresh succeeds with status 200, for a stored token whose hash is that of the token presented
-- and which is neither revoked nor run out at one of the times at which the database carries out the
-- statements of the refresh: then that token is revoked, a new session of its user is open, and
-- nothing else changed. A refusal that comes before the revocation changes nothing, and one that
-- comes after it is an internal error that leaves the token revoked. It never panics.
pub refresh-RefreshOutcome :
    {h : Host} (p : IsPostgres h) (L : Libraries) (state : AppState) (S : DateTime → Type 0)
    (body : RefreshRequest) (s : h.State)
    → Meets p Anytime S (refresh L state body) s
    → let (result, s') = run h (refresh L state body) s in
      RefreshOutcome L state S body (p.tables s) result (p.tables s')
refresh-RefreshOutcome p L state S body s meets =
    EnsuresAt-run Anytime S p (RefreshOutcome L state S body (p.tables s)) (refresh L state body) s
      meets (refresh-EnsuresAt L state S body (p.tables s))
