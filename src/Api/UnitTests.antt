-- ===== src/Api/UnitTests.antt =====
-- The unit tests of services/api/src/auth_utils.rs and jwt.rs, over the libraries.
use nyrex.Prelude.{String, not, Option, ok_or_else}
use nyrex.Prelude.Int.{as_usize}
use nyrex.Prelude.Text.{str_eq}
use nyrex.Core.Models.{Bytes, TokenClaims}
use nyrex.Effect.Program.{Program, request, utc_now, ◌>>=◌}
use nyrex.Effect.Asserts.{assert, unwrap}
use nyrex.Api.Libraries.{Libraries}
use nyrex.Api.AuthUtils.{hash_password, verify_password, hash_token}
use nyrex.Api.Jwt.{encode_token, decode_token}

module _ (L : Libraries) where
  unfoldable pub test_password_hash_and_verify : Program (Unit {0})
  unfolding hash_password verify_password
  test_password_hash_and_verify = do
    let password : String = "my-secure-password-2026"
    hashed ← hash_password L password
    hash ← unwrap hashed
    verified ← unwrap (verify_password L password hash)
    first ← assert verified
    wrong ← unwrap (verify_password L "wrong-password" hash)
    assert (not wrong)

  unfoldable pub test_token_hashing_deterministic : Program (Unit {0})
  unfolding hash_token
  test_token_hashing_deterministic = do
    let token : String = "some-refresh-token"
    let hash1 = hash_token L token
    let hash2 = hash_token L token
    same ← assert (str_eq hash1 hash2)
    let different = hash_token L "different-token"
    assert (not (str_eq hash1 different))

  -- `decode` is the decoder of the crate base64.
  unfoldable pub test_jwt_round_trip : (String → Option Bytes) → Program (Unit {0})
  unfolding encode_token decode_token
  test_jwt_round_trip decode = do
    priv_key ← unwrap (
        ok_or_else
          (decode
            "MFECAQEwBQYDK2VwBCIEIPOv+1x7QTK9++lp+K5/8+9U1KA5a9fehrseGcBFl21/gSEAUCLZNpuif7WM+F49mxwwnvP441mubTh+iIzuE6S8og0=")
          tt)
    pub_key ← unwrap (ok_or_else (decode "UCLZNpuif7WM+F49mxwwnvP441mubTh+iIzuE6S8og0=") tt)
    now ← request utc_now
    later ← request utc_now
    let claims : TokenClaims = record {
      sub = "user-123";
      iat = as_usize (L.timestamp now);
      exp = as_usize (L.timestamp (L.add_seconds later 3600));
    }
    token ← unwrap (encode_token L claims priv_key)
    given ← assert (not (str_eq token ""))
    result ← decode_token L token pub_key
    decoded ← unwrap result
    assert (str_eq decoded.sub "user-123")
