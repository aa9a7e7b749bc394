-- ===== src/Api/Routes/Auth.antt =====
-- services/api/src/routes/auth.rs: register, log in, and exchange a refresh token.
pub mod Race
pub mod Pair
pub mod Login
pub mod Register
pub mod Refresh
pub mod Replay
pub mod Return
pub mod Session
pub mod Renewal
pub mod Expiry
use nyrex.Prelude.{ℕ, String, Bool, true, false, Option, none, some, Result, ok, err}
use nyrex.Prelude.Int.{as_usize}
use nyrex.Core.Error.{CoreError}
use nyrex.Core.Models.{
  Uuid, DateTime, User, RefreshToken, RegisterRequest, LoginRequest, RefreshRequest, AuthResponse,
  TokenClaims,
}
use nyrex.Effect.Program.{request, utc_now, new_v4, done}
use nyrex.Effect.Handler.{Handler, ◌>>=◌, pure, fail, awaiting, mapping_err, present}
use nyrex.Store.Auth.{
  create_user, get_user_by_email, store_refresh_token, get_valid_refresh_token,
  revoke_refresh_token,
}
use nyrex.Api.Libraries.{Libraries}
use nyrex.Api.AuthUtils.{hash_password, verify_password, hash_token}
use nyrex.Api.Jwt.{encode_token}
use nyrex.Api.Response.{
  AppState, Rejection, StatusCode, ok_200, created_201, unauthorized_401, conflict_409, reject,
  store_error, library_error,
}

-- Fifteen minutes.
abbrev pub access_expires_in : ℕ
access_expires_in = 900

module _ (L : Libraries) where
  abbrev pub access_claims : Uuid → DateTime → TokenClaims
  access_claims user_id now = record {
    sub = L.uuid_to_string user_id;
    iat = as_usize (L.timestamp now);
    exp = as_usize (L.timestamp (L.add_seconds now access_expires_in));
  }

  abbrev pub refresh_record : Uuid → Uuid → String → DateTime → RefreshToken
  refresh_record id user_id refresh_hash now = record {
    id = id;
    user_id = user_id;
    token_hash = refresh_hash;
    expires_at = L.add_days now 30;
    revoked = false;
    created_at = now;
  }

module _ (L : Libraries) (state : AppState) where
  unfoldable pub generate_token_pair : Uuid → Handler AuthResponse Rejection
  unfolding encode_token hash_token store_refresh_token
  generate_token_pair user_id = do
    now ← awaiting (request utc_now)
    access_token ←
        mapping_err library_error
          (done (encode_token L (access_claims L user_id now) state.jwt_private_key))
    raw ← awaiting (request new_v4)
    let raw_refresh_token = L.uuid_to_string raw
    let refresh_hash = hash_token L raw_refresh_token
    id ← awaiting (request new_v4)
    stored ←
        mapping_err store_error (store_refresh_token (refresh_record L id user_id refresh_hash now))
    pure (record {
      access_token = access_token;
      refresh_token = raw_refresh_token;
      token_type = "Bearer";
      expires_in = access_expires_in;
    })

  -- The rest of `register`, once no user was found under the address.
  unfoldable pub create_account : RegisterRequest → Handler (StatusCode × AuthResponse) Rejection
  unfolding generate_token_pair hash_password create_user
  create_account body = do
    password_hash ← mapping_err library_error (hash_password L body.password)
    user_id ← awaiting (request new_v4)
    user ← mapping_err store_error (create_user user_id body.email password_hash body.display_name)
    auth_response ← generate_token_pair user.id
    pure (created_201, auth_response)

  -- `if let Ok(Some(_)) = existing`: an error of the lookup passes.
  abbrev pub is_registered : Result (Option User) CoreError → Bool
  is_registered (ok (some _)) = true
  is_registered (ok none) = false
  is_registered (err _) = false

  unfoldable pub register : RegisterRequest → Handler (StatusCode × AuthResponse) Rejection
  unfolding create_account get_user_by_email
  register body = do
    existing ← awaiting (get_user_by_email body.email)
    elim (is_registered existing) [
      | true ↦ fail (reject conflict_409 "Email already registered")
      | false ↦ create_account body
    ]

  -- The rest of `login`, once a user was found under the address.
  unfoldable pub login_as : LoginRequest → User → Handler (StatusCode × AuthResponse) Rejection
  unfolding generate_token_pair verify_password
  login_as body user = do
    verified ← mapping_err library_error (done (verify_password L body.password user.password_hash))
    elim verified [
      | false ↦ fail (reject unauthorized_401 "Invalid email or password")
      | true ↦ do auth_response ← generate_token_pair user.id; pure (ok_200, auth_response)
    ]

  unfoldable pub login : LoginRequest → Handler (StatusCode × AuthResponse) Rejection
  unfolding login_as get_user_by_email
  login body = do
    found ← mapping_err store_error (get_user_by_email body.email)
    user ← present found (reject unauthorized_401 "Invalid email or password")
    login_as body user

  -- The rest of `refresh`, once a valid token was found. The old token is revoked first.
  unfoldable pub rotate : RefreshToken → Handler (StatusCode × AuthResponse) Rejection
  unfolding generate_token_pair revoke_refresh_token
  rotate stored_token = do
    revoked ← mapping_err store_error (revoke_refresh_token stored_token.id)
    auth_response ← generate_token_pair stored_token.user_id
    pure (ok_200, auth_response)

  unfoldable pub refresh : RefreshRequest → Handler (StatusCode × AuthResponse) Rejection
  unfolding rotate hash_token get_valid_refresh_token
  refresh body = do
    let token_hash = hash_token L body.refresh_token
    found ← mapping_err store_error (get_valid_refresh_token token_hash)
    stored_token ← present found (reject unauthorized_401 "Invalid or expired refresh token")
    rotate stored_token
