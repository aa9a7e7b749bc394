-- ===== src/Store/Auth/Laws.antt =====
-- crates/store/src/pg/auth.rs: signing a user out everywhere.
use nyrex.Prelude.{
  ◌≡◌, ◌≢◌, sym, subst, String, Bool, true, false, not, ◌&&◌, ◌==◌, Option, none, some, [], ◌∷◌,
  inl, inr, Result, ok, err, ltb, if◌then◌else◌, Bool-cases, found-All, In, In-map_inv, arith,
  ==_iff,
}
use nyrex.Prelude.Text.{str_eq}
use nyrex.Core.Error.{CoreError}
use nyrex.Core.Models.{Uuid, DateTime, RefreshToken}
use nyrex.Effect.Table.{Tables}
use nyrex.Effect.Handler
use nyrex.Effect.Handler.{Handler}
use nyrex.Effect.Host.{Host, run, IsPostgres}
use nyrex.Effect.Logic.{Ensures, Ensures-run}
use nyrex.Store.Auth.{get_valid_refresh_token, revoke, revoke_all_user_tokens}

-- Revokes all tokens of a user and then looks a token up.
abbrev pub revoke_then_get : Uuid → String → Handler (Option RefreshToken) CoreError
revoke_then_get user_id token_hash =
    Handler.◌>>=◌ (revoke_all_user_tokens user_id) λ _. get_valid_refresh_token token_hash

-- No token, or another user's, which is not revoked.
abbrev pub NotOf : Uuid → Option (Result (Option RefreshToken) CoreError) → Tables → Type 0
NotOf user_id none d' = ⊥
NotOf user_id (some (ok none)) d' = Unit
NotOf user_id (some (ok (some r))) d' =
    In r d'.refresh_tokens × (r.user_id ≢ user_id) × (r.revoked ≡ false)
NotOf user_id (some (err e)) d' = Unit

module _ (user_id : Uuid) (token_hash : String) where
  abbrev revoked_of : RefreshToken → RefreshToken
  revoked_of r = if r.user_id == user_id then revoke r else r

  abbrev valid : DateTime → RefreshToken → Bool
  valid now r = str_eq r.token_hash token_hash && (not r.revoked && ltb now r.expires_at)

  alive_of_another :
      (now : DateTime) (r : RefreshToken)
      → valid now (revoked_of r) ≡ true
      → ((revoked_of r).user_id ≢ user_id) × ((revoked_of r).revoked ≡ false)
  alive_of_another now r e = elim (Bool-cases (r.user_id == user_id)) [
    | inl mine ↦ absurd (let dead = rw mine at e in ground arith)
    | inr other ↦
        let alive = rw other at e in
        rw other ((λ same. cc ((==_iff _ _).1 same, other)), ground arith)
  ]

  revoke_then_get-Ensures :
      (d : Tables) → Ensures (revoke_then_get user_id token_hash) (NotOf user_id) d
  unfolding revoke_all_user_tokens get_valid_refresh_token
  revoke_then_get-Ensures d = elim [
    | err m ↦ λ d' same. tt
    | ok rows ↦ λ d' (now, (hit, done)). (elim [
      | err m ↦ λ e same. tt
      | ok [] ↦ λ e (later, (found, same)). tt
      | ok (r ∷ rs) ↦ λ e (later, (found, same)).
          let row = (found-All (valid later) d'.refresh_tokens found).0 in
          let m = subst (λ (x : Tables). In r x.refresh_tokens) done row.0 in
          let (a, b, eq) = In-map_inv revoked_of r d.refresh_tokens m in
          let (other, alive) =
            alive_of_another later a (subst (λ x. valid later x ≡ true) eq row.1) in
          (
            subst (λ (x : Tables). In r x.refresh_tokens) (sym same) row.0,
            subst (λ (x : RefreshToken). x.user_id ≢ user_id) (sym eq) other,
            subst (λ (x : RefreshToken). x.revoked ≡ false) (sym eq) alive,
          )
    ])
  ]

-- Once all tokens of a user are revoked, a lookup of any hash finds no token of that user: it returns
-- none, or a token of another user that is not revoked, unless one of the two statements failed.
get_valid_refresh_token-revoke_all_user_tokens :
    {h : Host} (p : IsPostgres h) (user_id : Uuid) (token_hash : String) (s : h.State)
    → let (result, s') = run h (revoke_then_get user_id token_hash) s in
      NotOf user_id result (p.tables s')
get_valid_refresh_token-revoke_all_user_tokens p user_id token_hash s =
    Ensures-run p (NotOf user_id) (revoke_then_get user_id token_hash) s
      (revoke_then_get-Ensures user_id token_hash (p.tables s))
