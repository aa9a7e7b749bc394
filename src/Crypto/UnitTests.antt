-- ===== src/Crypto/UnitTests.antt =====
-- The unit tests of crates/crypto/src/cipher.rs and kdf.rs, over the libraries. Text is written in
-- bytes of ASCII.
use nyrex.Prelude.{String, Bool, true, false, not, [], ◌∷◌, Result, ok, err, replicate, ◌==◌}
use nyrex.Core.Models.{Bytes}
use nyrex.Core.UnitTests.{list_eq}
use nyrex.Effect.Program.{Program, ◌>>=◌}
use nyrex.Effect.Asserts.{assert, unwrap}
use nyrex.Crypto.Key.{new, as_bytes}
use nyrex.Crypto.Cipher.{AesGcm, encrypt_entry, decrypt_entry}
use nyrex.Crypto.Kdf.{Argon2, derive_key}

abbrev bytes_eq : Bytes → Bytes → Bool
bytes_eq a b = list_eq ◌==◌ a b

abbrev is_err : {A E : Type 0} → Result A E → Bool
is_err (ok a) = false
is_err (err e) = true

-- b"Top secret vault password"
abbrev secret_message : Bytes
secret_message =
    84 ∷ 111 ∷ 112 ∷ 32 ∷ 115 ∷ 101 ∷ 99 ∷ 114 ∷ 101 ∷ 116 ∷ 32 ∷ 118 ∷ 97 ∷ 117 ∷ 108 ∷ 116 ∷ 32
    ∷ 112 ∷ 97 ∷ 115 ∷ 115 ∷ 119 ∷ 111 ∷ 114 ∷ 100 ∷ []

-- b"sensitive info"
abbrev sensitive_info : Bytes
sensitive_info =
    115 ∷ 101 ∷ 110 ∷ 115 ∷ 105 ∷ 116 ∷ 105 ∷ 118 ∷ 101 ∷ 32 ∷ 105 ∷ 110 ∷ 102 ∷ 111 ∷ []

module _ (G : AesGcm) where
  unfoldable pub test_round_trip_encryption : Program (Unit {0})
  unfolding new encrypt_entry decrypt_entry
  test_round_trip_encryption = do
    key ← unwrap (new (42 ∷ replicate 31 0))
    encrypted ← encrypt_entry G secret_message key
    (ciphertext, nonce) ← unwrap encrypted
    differs ← assert (not (bytes_eq ciphertext secret_message))
    decrypted ← unwrap (decrypt_entry G ciphertext nonce key)
    assert (bytes_eq decrypted secret_message)

  unfoldable pub test_decryption_fails_with_bad_key : Program (Unit {0})
  unfolding new encrypt_entry decrypt_entry
  test_decryption_fails_with_bad_key = do
    key1 ← unwrap (new (replicate 32 1))
    key2 ← unwrap (new (replicate 32 2))
    encrypted ← encrypt_entry G sensitive_info key1
    (ciphertext, nonce) ← unwrap encrypted
    assert (is_err (decrypt_entry G ciphertext nonce key2))

unfoldable pub test_derive_key_determinism : Argon2 → Program (Unit {0})
unfolding derive_key as_bytes
test_derive_key_determinism A = do
  let pw : String = "hunter2"
  let salt : String = "c29tZXNhbHRzdHJpbmcxMj"
  key1 ← unwrap (derive_key A pw salt)
  key2 ← unwrap (derive_key A pw salt)
  same ← assert (bytes_eq (as_bytes key1) (as_bytes key2))
  key3 ← unwrap (derive_key A "hunter3" salt)
  assert (not (bytes_eq (as_bytes key1) (as_bytes key3)))
