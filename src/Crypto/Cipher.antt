-- ===== src/Crypto/Cipher.antt =====
-- crates/crypto/src/cipher.rs: encryption of entries with AES-256-GCM.
use nyrex.Prelude.{ℕ, Option, none, some, Result, ok_or_else, ◌>>=?◌, length, ◌==◌, if◌then◌else◌}
use nyrex.Core.Models.{Bytes}
use nyrex.Effect.Program.{request, generate_nonce, done}
use nyrex.Effect.Handler.{Handler, ◌>>=◌, awaiting, pure}
use nyrex.Crypto.Error.{CryptoError, encryption_error, decryption_error}
use nyrex.Crypto.Key.{VaultKey, as_bytes}

-- The crate aes-gcm. A cipher is made from a key, and encrypts and decrypts under a nonce; the
-- errors carry nothing.
pub record AesGcm : Type 1 where
  pub Aes256Gcm : Type 0
  pub new_from_slice : Bytes → Option Aes256Gcm
  -- `encrypt` and `decrypt` take the cipher, the nonce and the text.
  pub encrypt : Aes256Gcm → Bytes → Bytes → Option Bytes
  pub decrypt : Aes256Gcm → Bytes → Bytes → Option Bytes

-- `Nonce::from_exact_iter`: an array of 12 bytes, if there are so many.
abbrev pub nonce_size : ℕ
nonce_size = 12

abbrev pub nonce_from_exact_iter : Bytes → Option Bytes
nonce_from_exact_iter bytes = if length bytes == nonce_size then some bytes else none

module _ (G : AesGcm) where
  unfoldable pub encrypt_entry : Bytes → VaultKey → Handler (Bytes × Bytes) CryptoError
  unfolding as_bytes
  encrypt_entry plaintext key = do
    cipher ← done (ok_or_else (G.new_from_slice (as_bytes key)) encryption_error)
    nonce ← awaiting (request generate_nonce)
    ciphertext ← done (ok_or_else (G.encrypt cipher nonce plaintext) encryption_error)
    pure (ciphertext, nonce)

  unfoldable pub decrypt_entry : Bytes → Bytes → VaultKey → Result Bytes CryptoError
  unfolding as_bytes
  decrypt_entry ciphertext nonce_bytes key =
      ok_or_else (G.new_from_slice (as_bytes key)) decryption_error >>=? λ cipher.
      ok_or_else (nonce_from_exact_iter nonce_bytes) decryption_error >>=? λ nonce.
      ok_or_else (G.decrypt cipher nonce ciphertext) decryption_error
