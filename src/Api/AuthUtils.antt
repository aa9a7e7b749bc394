-- ===== src/Api/AuthUtils.antt =====
-- services/api/src/auth_utils.rs: hashes of passwords and of refresh tokens.
use nyrex.Prelude.{String, Bool, Result, ok, ◌>>=?◌}
use nyrex.Effect.Program.{request, generate_salt, done}
use nyrex.Effect.Handler.{Handler, ◌>>=◌, awaiting}
use nyrex.Api.Libraries.{Libraries}

module _ (L : Libraries) where
  unfoldable pub hash_password : String → Handler String String
  hash_password password = do
    salt ← awaiting (request generate_salt)
    hash ← done (L.argon2_hash_password password salt)
    done (ok hash)

  unfoldable pub verify_password : String → String → Result Bool String
  verify_password password hash =
      L.password_hash_new hash >>=? λ parsed. ok (L.argon2_verify_password password parsed)

  unfoldable pub hash_token : String → String
  hash_token token = L.blake3_hex token
