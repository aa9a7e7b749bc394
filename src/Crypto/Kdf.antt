-- ===== src/Crypto/Kdf.antt =====
-- crates/crypto/src/kdf.rs: derivation of the vault key from a password.
use nyrex.Prelude.{ℕ, String, Result, map_err, ◌>>=?◌}
use nyrex.Core.Models.{Bytes}
use nyrex.Crypto.Error.{CryptoError, kdf_error}
use nyrex.Crypto.Key.{VaultKey, new, key_size}

-- The crate argon2, for derivation: a salt in Base64, parameters, and `hash_password_into` with
-- Argon2id in version 0x13, on the length of the output. Its errors are used through their texts.
pub record Argon2 : Type 1 where
  pub Params : Type 0
  pub salt_from_b64 : String → Result String String
  -- memory in KiB, iterations, parallelism, length of the output
  pub new_params : ℕ → ℕ → ℕ → ℕ → Result Params String
  pub hash_password_into : Params → String → String → ℕ → Result Bytes String

module _ (A : Argon2) where
  unfoldable pub derive_key : String → String → Result VaultKey CryptoError
  unfolding new
  derive_key password salt = map_err kdf_error (A.salt_from_b64 salt) >>=? λ salt_string.
      map_err kdf_error (A.new_params 19456 2 1 key_size) >>=? λ params.
      map_err kdf_error (A.hash_password_into params password salt_string key_size)
      >>=? λ key_bytes. new key_bytes
