-- ===== src/Api/Routes/Auth/Expiry.antt =====
-- services/api/src/routes/auth.rs: a refresh token that has run out.
use nyrex.Prelude.{◌≡◌, ◌≤◌, In, arith}
use nyrex.Core.Models.{DateTime, RefreshToken, RefreshRequest}
use nyrex.Effect.Table.{Tables}
use nyrex.Effect.Host.{Host, run, IsPostgres}
use nyrex.Effect.Clock.{Meets, Anytime}
use nyrex.Api.Libraries.{Libraries}
use nyrex.Api.AuthUtils.{hash_token}
use nyrex.Api.Response.{AppState}
use nyrex.Api.Routes.Auth.{refresh}
use nyrex.Api.Routes.Auth.Refresh.{refresh-RefreshOutcome}
use nyrex.Api.Routes.Auth.Replay.{Refused, refused}

module _ (L : Libraries) (S : DateTime → Type 0) (body : RefreshRequest) where
  -- Every stored token with the presented hash has run out at all those times.
  abbrev pub IsExpired : Tables → Type 0
  IsExpired d =
      (token : RefreshToken)
      → In token d.refresh_tokens
      → token.token_hash ≡ hash_token L body.refresh_token
      → (now : DateTime) → S now
      → token.expires_at ≤ now

-- A refresh is refused, with nothing changed, when its token has run out: when every stored token
-- with its hash has an expiry at or before each time at which the database carries out a statement
-- of the refresh.
pub refresh_expired :
    {h : Host} (p : IsPostgres h) (L : Libraries) (state : AppState) (S : DateTime → Type 0)
    (body : RefreshRequest) (s : h.State)
    → IsExpired L S body (p.tables s)
    → Meets p Anytime S (refresh L state body) s
    → let (r, s') = run h (refresh L state body) s in Refused r × (p.tables s' ≡ p.tables s)
refresh_expired {h} p L state S body s expired meets =
    let (result, s') = run h (refresh L state body) s in
    refused L state S body (p.tables s) result (p.tables s')
      (λ token (stored, same, live, (now, at, early)).
        let late = expired token stored same now at in absurd (omega arith))
      (refresh-RefreshOutcome p L state S body s meets)
