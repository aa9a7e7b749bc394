-- ===== src/Api/Routes/Auth/Replay.antt =====
-- A refresh token is good for one exchange.
use nyrex.Prelude.{
  String, Bool, true, false, Option, none, some, ◌≡◌, ◌≢◌, refl, sym, subst, ap, ◌∙◌, ok, err,
  Result, ◌⊎◌, inl, inr, In, In-map_inv, ◌==◌, ==_iff, if◌then◌else◌,
}
use nyrex.Core.Models.{Uuid, DateTime, RefreshToken, RefreshRequest, AuthResponse}
use nyrex.Effect.Table.{Tables}
use nyrex.Effect.Clock.{Anytime}
use nyrex.Effect.Logic.{Ensures-run}
use nyrex.Effect.Host.{Host, run, IsPostgres}
use nyrex.Store.Auth.{revoke}
use nyrex.Api.Libraries.{Libraries}
use nyrex.Api.AuthUtils.{hash_token}
use nyrex.Api.Response.{
  AppState, Rejection, StatusCode, reject, unauthorized_401, internal_server_error_500,
}
use nyrex.Api.Routes.Auth.{refresh}
use nyrex.Api.Routes.Auth.Refresh.{IsValidToken, with_revoked, RefreshOutcome, refresh-Ensures}

-- All stored tokens with this hash have one identifier.
abbrev pub IsOneToken : String → Tables → Type 0
IsOneToken hash d =
    (a b : RefreshToken)
    → In a d.refresh_tokens
    → In b d.refresh_tokens
    → a.token_hash ≡ hash
    → b.token_hash ≡ hash
    → a.id ≡ b.id

-- A refusal: an internal error, or the one for a token that is not valid.
abbrev pub Refused : Option (Result (StatusCode × AuthResponse) Rejection) → Type 0
Refused result =
    (e : Rejection) × (result ≡ some (err e))
    × ((e.status ≡ internal_server_error_500)
        ⊎ (e ≡ reject unauthorized_401 "Invalid or expired refresh token"))

revoked_is_not_valid :
    (id : Uuid) (a t : RefreshToken)
    → a.id ≡ id
    → t ≡ (if a.id == id then revoke a else a)
    → t.revoked ≡ false
    → ⊥
revoked_is_not_valid id a t same e alive =
    let here : (a.id == id) ≡ true = (==_iff _ _).1 same in
    let revoked : t ≡ revoke a = rw here at e in
    cc (ap (λ (r : RefreshToken). r.revoked) revoked, alive)

token_hash-revoke :
    (b : Bool) (a : RefreshToken) → (if b then revoke a else a).token_hash ≡ a.token_hash
token_hash-revoke true a = refl
token_hash-revoke false a = refl

module _ (L : Libraries) (state : AppState) (body : RefreshRequest) where
  abbrev hash : String
  hash = hash_token L body.refresh_token

  -- Once the one token with the hash is revoked, no stored token is valid for it.
  none_valid :
      (token : RefreshToken) (d : Tables)
      → IsOneToken hash d
      → In token d.refresh_tokens
      → token.token_hash ≡ hash
      → (t : RefreshToken) → In t (with_revoked token.id d).refresh_tokens
      → t.token_hash ≡ hash
      → t.revoked ≡ false
      → ⊥
  none_valid token d one found is_hash t m t_hash alive =
      let (a, a_found, e) =
        In-map_inv (λ (r : RefreshToken). if r.id == token.id then revoke r else r) t
          d.refresh_tokens m in
      let a_hash : a.token_hash ≡ hash =
        sym (ap (λ (r : RefreshToken). r.token_hash) e ∙ token_hash-revoke (a.id == token.id) a)
        ∙ t_hash in
      revoked_is_not_valid token.id a t (one a token a_found found a_hash is_hash) e alive

  -- After a successful exchange, no token is valid for the hash, unless the fresh one collides.
  exchanged :
      (d d' : Tables) (status : StatusCode) (response : AuthResponse)
      → IsOneToken hash d
      → hash_token L response.refresh_token ≢ hash
      → RefreshOutcome L state Anytime body d (some (ok (status, response))) d'
      → (t : RefreshToken) → ¬ (IsValidToken Anytime hash d' t)
  exchanged d d' status response one differ
        (
          good,
          token,
          (found, is_hash, live, term),
          (now, raw, id, signed, is_raw, kind, span, stored),
        )
        t (m, t_hash, alive, t_term) =
      let m' = subst (λ (x : Tables). In t x.refresh_tokens) stored m in
      elim m' [
        | inl e ↦
            differ (
              ap (hash_token L) is_raw ∙ (sym (ap (λ (r : RefreshToken). r.token_hash) e) ∙ t_hash))
        | inr old ↦ none_valid token d one found is_hash t old t_hash alive
      ]

module _ (L : Libraries) (state : AppState) (S : DateTime → Type 0) (body : RefreshRequest) where
  -- Where no stored token is valid, the outcome is a refusal.
  pub refused :
      (d : Tables) (result : Option (Result (StatusCode × AuthResponse) Rejection)) (d' : Tables)
      → ((t : RefreshToken) → ¬ (IsValidToken S (hash_token L body.refresh_token) d t))
      → RefreshOutcome L state S body d result d'
      → Refused result × (d' ≡ d)
  refused d none d' never o = absurd o
  refused d (some (ok (status, response))) d' never (good, token, valid, opened) =
      absurd (never token valid)
  refused d (some (err e)) d' never (inl (why, same)) = ((e, refl, why), same)
  refused d (some (err e)) d' never (inr (token, valid, why, lost)) = absurd (never token valid)

-- A token that was exchanged once is refused from then on, and the refusal changes nothing: if one
-- identifier at most has the token's hash, and the fresh token that the first exchange returned does
-- not have it, a second refresh with the same token fails on every host.
pub refresh-refresh :
    {h : Host} (p : IsPostgres h) (L : Libraries) (state : AppState) (body : RefreshRequest)
    {status : StatusCode} {response : AuthResponse} (s : h.State)
    → IsOneToken (hash_token L body.refresh_token) (p.tables s)
    → (run h (refresh L state body) s).0 ≡ some (ok (status, response))
    → hash_token L response.refresh_token ≢ hash_token L body.refresh_token
    → let s' = (run h (refresh L state body) s).1 in
      let (again, s'') = run h (refresh L state body) s' in
      Refused again × (p.tables s'' ≡ p.tables s')
refresh-refresh {h} p L state body {status} {response} s one succeeded differ =
    let (first, s') = run h (refresh L state body) s in
    let (again, s'') = run h (refresh L state body) s' in
    let Q = λ (d : Tables). RefreshOutcome L state Anytime body d in
    let first_outcome =
      Ensures-run p (Q (p.tables s)) (refresh L state body) s
        (refresh-Ensures L state body (p.tables s)) in
    let outcome = subst (λ r. Q (p.tables s) r (p.tables s')) succeeded first_outcome in
    refused L state Anytime body (p.tables s') again (p.tables s'')
      (exchanged L state body (p.tables s) (p.tables s') status response one differ outcome)
      (Ensures-run p (Q (p.tables s')) (refresh L state body) s'
        (refresh-Ensures L state body (p.tables s')))
