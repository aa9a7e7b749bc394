-- ===== src/Crypto/Error.antt =====
-- crates/crypto/src/error.rs
use nyrex.Prelude.{ℕ, String}

pub data CryptoError : Type 0 where
  encryption_error decryption_error : CryptoError
  kdf_error : String → CryptoError
  -- the length that was expected and the actual one
  invalid_key_length : ℕ → ℕ → CryptoError
