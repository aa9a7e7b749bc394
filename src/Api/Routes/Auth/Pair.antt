-- ===== src/Api/Routes/Auth/Pair.antt =====
-- What `generate_token_pair` does to the database, result by result.
use nyrex.Prelude.{Option, none, some, ◌∷◌, ◌≡◌, refl, ok, err, Result, inl, inr, Result-cases}
use nyrex.Core.Models.{Uuid, DateTime, AuthResponse}
use nyrex.Effect.Table.{Tables}
use nyrex.Effect.Handler.{Handler, pure}
use nyrex.Effect.Logic.{Ensures}
use nyrex.Api.Libraries.{Libraries}
use nyrex.Api.AuthUtils.{hash_token}
use nyrex.Api.Jwt.{encode_token}
use nyrex.Api.Response.{AppState, Rejection, StatusCode, internal_server_error_500}
use nyrex.Api.Routes.Auth.{access_expires_in, access_claims, refresh_record, generate_token_pair}

module _ (L : Libraries) (state : AppState) where
  -- A session of the user began: an access token was signed, and the hash of a fresh refresh token
  -- was stored with a term of thirty days, not revoked, and nothing else changed.
  abbrev pub Opened : Uuid → Tables → AuthResponse → Tables → Type 0
  Opened user_id d response d' =
      (now : DateTime) × (raw : Uuid) × (id : Uuid) × (encode_token L (access_claims L user_id now)
          state.jwt_private_key
        ≡ ok response.access_token)
      × (response.refresh_token ≡ L.uuid_to_string raw)
      × (response.token_type ≡ "Bearer")
      × (response.expires_in ≡ access_expires_in)
      × (d' ≡ record d {
        refresh_tokens =
            refresh_record L id user_id (hash_token L (L.uuid_to_string raw)) now
            ∷ d.refresh_tokens;
      })

  abbrev pub PairOutcome : Uuid → Tables → Option (Result AuthResponse Rejection) → Tables → Type 0
  PairOutcome user_id d none d' = ⊥
  PairOutcome user_id d (some (ok response)) d' = Opened user_id d response d'
  PairOutcome user_id d (some (err e)) d' = (e.status ≡ internal_server_error_500) × (d' ≡ d)

  pub generate_token_pair-Ensures :
      (user_id : Uuid) (d : Tables)
      → Ensures (generate_token_pair L state user_id) (PairOutcome user_id d) d
  unfolding generate_token_pair
  generate_token_pair-Ensures user_id d = λ now.
      elim (Result-cases (encode_token L (access_claims L user_id now) state.jwt_private_key)) [
        | inr (m, e) ↦ rw (e, Ensures) (refl, refl)
        | inl (token, e) ↦
            rw (e, Ensures)
              λ raw id. (elim [
                | err m ↦ λ d' same. (refl, same)
                | ok rows ↦
                    λ d' (at, (legal, row, stored)). (now, raw, id, e, refl, refl, refl, stored)
              ])
      ]

  abbrev pub then_answer : StatusCode → AuthResponse → Handler (StatusCode × AuthResponse) Rejection
  then_answer status response = pure (status, response)
