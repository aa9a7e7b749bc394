-- ===== src/Crypto/Laws.antt =====
-- What the vault's cryptography guarantees its callers.
use nyrex.Prelude.{
  ℕ, String, ◌≡◌, ◌≢◌, refl, ◌↔◌, Option, none, some, Result, ok, err, length, Option-cases,
  Bool-cases, inl, inr, ◌⊎◌, ◌==◌, ==_iff, arith,
}
use nyrex.Core.Models.{Bytes}
use nyrex.Effect.Program.{generate_nonce}
use nyrex.Effect.Host.{Host, run}
use nyrex.Crypto.Error.{CryptoError, encryption_error, decryption_error, kdf_error}
use nyrex.Crypto.Key.{VaultKey, new, as_bytes, key_size}
use nyrex.Crypto.Cipher.{AesGcm, encrypt_entry, decrypt_entry, nonce_size}
use nyrex.Crypto.Kdf.{Argon2}

-- What aes-gcm documents: a cipher can be made from 32 bytes, and it decrypts what it encrypted under
-- the same nonce.
pub record IsAead (G : AesGcm) : Type 0 where
  pub new_from_slice-some :
      (key : Bytes) → length key ≡ key_size → (c : G.Aes256Gcm) × (G.new_from_slice key ≡ some c)
  pub decrypt-encrypt :
      (c : G.Aes256Gcm) (nonce plaintext ciphertext : Bytes)
      → length nonce ≡ nonce_size
      → G.encrypt c nonce plaintext ≡ some ciphertext
      → G.decrypt c nonce ciphertext ≡ some plaintext

-- What argon2 documents: a derivation fills the output.
abbrev pub FillsOutput : Argon2 → Type 0
FillsOutput A =
    (params : A.Params) (password salt : String) (n : ℕ) (bytes : Bytes)
    → A.hash_password_into params password salt n ≡ ok bytes
    → length bytes ≡ n

-- A key is made from exactly the slices of 32 bytes, and gives them back.
as_bytes-new :
    (bytes : Bytes) (key : VaultKey)
    → (new bytes ≡ ok key) ↔ ((as_bytes key ≡ bytes) × (length bytes ≡ key_size))
unfolding new as_bytes
as_bytes-new bytes key = (λ made. (ground arith, ground arith), λ (same, size). ground arith)

module _ (G : AesGcm) where
  -- What an encryption returns: a nonce of 12 bytes under which the same key decrypts to the text.
  abbrev pub Encrypted : Bytes → VaultKey → Option (Result (Bytes × Bytes) CryptoError) → Type 0
  Encrypted plaintext key none = ⊥
  Encrypted plaintext key (some (ok (ciphertext, nonce))) =
      (length nonce ≡ nonce_size) × (decrypt_entry G ciphertext nonce key ≡ ok plaintext)
  Encrypted plaintext key (some (err e)) = e ≡ encryption_error

  decrypts :
      IsAead G
      → (key : VaultKey) (c : G.Aes256Gcm) (nonce plaintext ciphertext : Bytes)
      → G.new_from_slice (as_bytes key) ≡ some c
      → length nonce ≡ nonce_size
      → G.encrypt c nonce plaintext ≡ some ciphertext
      → decrypt_entry G ciphertext nonce key ≡ ok plaintext
  unfolding decrypt_entry
  decrypts aead key c nonce plaintext ciphertext made size e =
      let back = aead.decrypt-encrypt c nonce plaintext ciphertext size e in
      rw (made, (==_iff _ _).1 size, back)

-- A wrong length of the nonce is a decryption error, whatever the key and the ciphertext.
decrypt_entry-nonce :
    (G : AesGcm) (ciphertext nonce : Bytes) (key : VaultKey)
    → length nonce ≢ nonce_size
    → decrypt_entry G ciphertext nonce key ≡ err decryption_error
unfolding decrypt_entry
decrypt_entry-nonce G ciphertext nonce key wrong = elim (Bool-cases (length nonce == nonce_size)) [
  | inl same ↦ absurd (wrong ((==_iff _ _).0 same))
  | inr other ↦ elim (Option-cases (G.new_from_slice (as_bytes key))) [
    | inl e ↦ rw e
    | inr (c, e) ↦ rw e (rw other)
  ]
]

-- What is encrypted under a key of 32 bytes comes back: an encryption returns a nonce of 12 bytes and
-- a ciphertext that decrypts to the text under that nonce and the key, or fails by an encryption
-- error, when the generator makes nonces of 12 bytes.
pub decrypt_entry-encrypt_entry :
    (h : Host) (G : AesGcm)
    → IsAead G
    → ((s : h.State) → length (h.answer generate_nonce s).0 ≡ nonce_size)
    → (plaintext : Bytes) (key : VaultKey) (s : h.State) → length (as_bytes key) ≡ key_size
    → Encrypted G plaintext key (run h (encrypt_entry G plaintext key) s).0
unfolding encrypt_entry
decrypt_entry-encrypt_entry h G aead twelve plaintext key s size =
    let nonce = (h.answer generate_nonce s).0 in
    let (c, made) = aead.new_from_slice-some (as_bytes key) size in
    elim (Option-cases (G.encrypt c nonce plaintext)) [
      | inl failed ↦ rw (made, encrypt_entry, run) (rw (failed, run) refl)
      | inr (ciphertext, e) ↦
          rw (made, encrypt_entry, run)
            (rw (e, run)
              (twelve s, decrypts G aead key c nonce plaintext ciphertext made (twelve s) e))
    ]

-- What a derivation computes: the key is what argon2 makes of the password and the decoded salt with
-- 19456 KiB, two passes and one lane, and an error is that of the first step that fails.
abbrev pub Derived : Argon2 → String → String → Result VaultKey CryptoError → Type 0
Derived A password salt (ok key) =
    (text : String) × (params : A.Params) × (A.salt_from_b64 salt ≡ ok text)
    × (A.new_params 19456 2 1 32 ≡ ok params)
    × (A.hash_password_into params password text 32 ≡ ok (as_bytes key))
    × (length (as_bytes key) ≡ 32)
Derived A password salt (err e) =
    (m : String) × (e ≡ kdf_error m)
    × ((A.salt_from_b64 salt ≡ err m)
        ⊎ ((A.new_params 19456 2 1 32 ≡ err m)
            ⊎ ((text : String) × (params : A.Params) × (A.salt_from_b64 salt ≡ ok text)
                × (A.hash_password_into params password text 32 ≡ err m))))
