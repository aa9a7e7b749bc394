-- ===== src/Api/Routes/Auth/Race.antt =====
-- services/api/src/routes/auth.rs: two exchanges of one refresh token at once.
use nyrex.Prelude.{
  ◌≡◌, refl, sym, ◌∙◌, subst, Option, none, some, List, [], ◌∷◌, Result, ok, err, ◌⊎◌, inl, inr,
  String, ◌==◌, Result-cases,
}
use nyrex.Core.Models.{RefreshToken, RefreshRequest, AuthResponse}
use nyrex.Effect.Table.{Tables, refresh_tokens}
use nyrex.Effect.Statement.{DbError, select, update, insert}
use nyrex.Effect.Program.{sql, utc_now, new_v4, ◌>>=◌}
use nyrex.Effect.Handler.{continue}
use nyrex.Effect.Host.{Host, run, IsPostgres}
use nyrex.Effect.Logic.{Ensures, Ensures-run, Ensures-bind, Ensures-mono, Next}
use nyrex.Effect.Tasks.Schedule.{schedule}
use nyrex.Store.Auth.{revoke}
use nyrex.Api.AuthUtils.{hash_token}
use nyrex.Api.Jwt.{encode_token}
use nyrex.Api.Libraries.{Libraries}
use nyrex.Api.Response.{AppState, Rejection, StatusCode, internal_server_error_500, ok_200}
use nyrex.Api.Routes.Auth.{access_claims, refresh_record, generate_token_pair, refresh, rotate}
use nyrex.Api.Routes.Auth.Pair.{Opened, PairOutcome, then_answer, generate_token_pair-Ensures}
use nyrex.Api.Routes.Auth.Refresh.{presented, with_revoked}

module _ (L : Libraries) (state : AppState) (token : RefreshToken) (d : Tables) where
  -- The token is exchanged for a new session of its user and is revoked, or a statement or a library
  -- fails.
  abbrev pub Exchanged : Option (Result (StatusCode × AuthResponse) Rejection) → Tables → Type 0
  Exchanged none d' = ⊥
  Exchanged (some (ok (status, response))) d' =
      (status ≡ ok_200) × Opened L state token.user_id (with_revoked token.id d) response d'
  Exchanged (some (err e)) d' =
      (e.status ≡ internal_server_error_500) × ((d' ≡ d) ⊎ (d' ≡ with_revoked token.id d))

  after_pair :
      (result : Option (Result AuthResponse Rejection)) (d' : Tables)
      → PairOutcome L state token.user_id (with_revoked token.id d) result d'
      → Next (continue (then_answer L state ok_200)) Exchanged result d'
  after_pair none d' o = o
  after_pair (some (ok response)) d' o = (refl, o)
  after_pair (some (err e)) d' o = (o.0, inr o.1)

  rotate-Ensures : Ensures (rotate L state token) Exchanged d
  unfolding rotate
  rotate-Ensures = elim [
    | err m ↦ λ d' same. (refl, inl same)
    | ok rows ↦ λ d' (now, (found, revoked)).
        subst
          (Ensures
            (generate_token_pair L state token.user_id >>= continue (then_answer L state ok_200))
            Exchanged)
          (sym revoked)
          (Ensures-bind (continue (then_answer L state ok_200)) Exchanged
            (generate_token_pair L state token.user_id) (with_revoked token.id d)
            (Ensures-mono after_pair (generate_token_pair L state token.user_id)
              (with_revoked token.id d)
              (generate_token_pair-Ensures L state token.user_id (with_revoked token.id d))))
  ]

module _ (h : Host) (L : Libraries) (state : AppState) (token : RefreshToken) (s : h.State) where
  -- The revocation, the signature of the access token or the INSERT of the new one fails.
  abbrev pub Fails : Type 0
  Fails =
      let (v, s1) =
        h.answer (sql {t = refresh_tokens} (update (λ r. r.id == token.id) (λ _. revoke))) s in
      let (now, s2) = h.answer utc_now s1 in
      let (raw, s3) = h.answer new_v4 s2 in
      let (id, s4) = h.answer new_v4 s3 in
      let opened = refresh_record L id token.user_id (hash_token L (L.uuid_to_string raw)) now in
      ((m : DbError) × (v ≡ err m))
      ⊎ (((m : String) × (encode_token L (access_claims L token.user_id now) state.jwt_private_key
              ≡ err m))
          ⊎ ((m : DbError) × ((h.answer (sql {t = refresh_tokens} (insert λ _. opened)) s4).0
                ≡ err m)))

  -- An error has a reason.
  abbrev pub Explained : Option (Result (StatusCode × AuthResponse) Rejection) → Type 0
  Explained none = ⊥
  Explained (some (ok answer)) = Unit
  Explained (some (err e)) = Fails

  rotate-Explained : Explained (run h (rotate L state token) s).0
  unfolding rotate generate_token_pair
  rotate-Explained =
      let (v, s1) =
        h.answer (sql {t = refresh_tokens} (update (λ r. r.id == token.id) (λ _. revoke))) s in
      let (now, s2) = h.answer utc_now s1 in
      let (raw, s3) = h.answer new_v4 s2 in
      let (id, s4) = h.answer new_v4 s3 in
      let opened = refresh_record L id token.user_id (hash_token L (L.uuid_to_string raw)) now in
      elim (Result-cases v) [
        | inr (m, e) ↦ rw (e, Explained, run) (inl (m, e))
        | inl (rows, e) ↦
            rw (e, Explained, run)
              (elim (Result-cases
                (encode_token L (access_claims L token.user_id now) state.jwt_private_key)) [
                  | inr (m, f) ↦ rw (f, Explained, run) (inr (inl (m, f)))
                  | inl (access_token, f) ↦
                      rw (f, Explained, run)
                        (elim (Result-cases
                          (h.answer (sql {t = refresh_tokens} (insert λ _. opened)) s4).0) [
                            | inr (m, g) ↦ rw (g, Explained, run) (inr (inr (m, g)))
                            | inl (rows', g) ↦ rw (g, Explained, run) tt
                          ])
                ])
      ]

-- Two exchanges of one refresh token, whose lookups are both answered by the token before either goes
-- on, both go on to exchange it. The first one revokes it and opens a session of its user; the second
-- one, which runs when the first has ended, revokes the revoked token and opens another session of the
-- user, whatever the first has done. Either stops only by an internal error, never by a refusal, and
-- only if its revocation, the signature of its access token or the INSERT of its new token fails.
pub schedule-refresh :
    {h : Host} (p : IsPostgres h) (L : Libraries) (state : AppState) (body : RefreshRequest)
    (token : RefreshToken) {others others' : List RefreshToken} (s : h.State)
    → let (r, s1) = h.answer (sql {t = refresh_tokens} (select (presented L body))) s in
      let (r', s2) = h.answer (sql {t = refresh_tokens} (select (presented L body))) s1 in
      r ≡ ok (token ∷ others)
      → r' ≡ ok (token ∷ others')
      → let (tasks, s2') =
          schedule h (0 ∷ 1 ∷ []) (refresh L state body ∷ refresh L state body ∷ []) s in
        let (result, s3) = run h (rotate L state token) s2' in
        let (result', s4) = run h (rotate L state token) s3 in
        (tasks ≡ rotate L state token ∷ rotate L state token ∷ [])
        × Exchanged L state token (p.tables s) result (p.tables s3)
        × Explained h L state token s2' result
        × Exchanged L state token (p.tables s3) result' (p.tables s4)
        × Explained h L state token s3 result'
unfolding refresh
schedule-refresh {h} p L state body token s r r' =
    let s1 = (h.answer (sql {t = refresh_tokens} (select (presented L body))) s).1 in
    let s2 = (h.answer (sql {t = refresh_tokens} (select (presented L body))) s1).1 in
    let (now, (found, same)) =
      rw r at (p.executes {t = refresh_tokens} (select (presented L body)) s) in
    let (now', (found', same')) =
      rw r' at (p.executes {t = refresh_tokens} (select (presented L body)) s1) in
    let first =
      Ensures-run p (Exchanged L state token (p.tables s2)) (rotate L state token) s2
        (rotate-Ensures L state token (p.tables s2)) in
    let s3 = (run h (rotate L state token) s2).1 in
    (
      rw (r, r') refl,
      subst
          (λ (d : Tables).
            Exchanged L state token d (run h (rotate L state token) s2).0 (p.tables s3))
          (same' ∙ same) first,
      rotate-Explained h L state token s2,
      Ensures-run p (Exchanged L state token (p.tables s3)) (rotate L state token) s3
          (rotate-Ensures L state token (p.tables s3)),
      rotate-Explained h L state token s3,
    )
