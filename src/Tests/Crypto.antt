-- ===== src/Tests/Crypto.antt =====
-- Encryption and derivation over stand-ins for the two crates.
use nyrex.Prelude.{
  ℕ, ◌==◌, if◌then◌else◌, ◌≡◌, refl, Option, none, some, [], ◌∷◌, ok, length, replicate, arith,
}
use nyrex.Core.Models.{Bytes}
use nyrex.Effect.Host.{run}
use nyrex.Effect.Program.{generate_nonce}
use nyrex.Effect.Memory.{Memory, memory, reply}
use nyrex.Crypto.Key.{VaultKey, as_bytes, key_size}
use nyrex.Crypto.Cipher.{AesGcm, encrypt_entry, nonce_size}
use nyrex.Crypto.Kdf.{Argon2, derive_key}
use nyrex.Crypto.Laws.{IsAead, Encrypted, decrypt_entry-encrypt_entry}
use nyrex.Tests.Toy.{store}

-- A cipher that leaves the text as it is.
abbrev plain : AesGcm
plain = record {
  Aes256Gcm = Bytes;
  new_from_slice = λ key. if length key == 32 then some key else none;
  encrypt = λ c nonce text. some text;
  decrypt = λ c nonce text. some text;
}

from_slice :
    (key : Bytes) → length key ≡ key_size → (c : Bytes) × (plain.new_from_slice key ≡ some c)
from_slice key size = (key, ground arith)

same_text :
    (c nonce plaintext ciphertext : Bytes)
    → length nonce ≡ nonce_size
    → ◌≡◌ {A = Option Bytes} (some plaintext) (some ciphertext)
    → ◌≡◌ {A = Option Bytes} (some ciphertext) (some plaintext)
same_text c nonce plaintext ciphertext size e = cc

plain-IsAead : IsAead plain
plain-IsAead = record { new_from_slice-some = from_slice; decrypt-encrypt = same_text }

abbrev key : VaultKey
key = record { inner = 42 ∷ replicate 31 0 }

twelve : (s : Memory) → length (memory.answer generate_nonce s).0 ≡ nonce_size
unfolding reply
twelve s = refl

thirty_two : length (as_bytes key) ≡ key_size
unfolding as_bytes
thirty_two = refl

decrypt_entry-encrypt_entry_example :
    Encrypted plain (7 ∷ 8 ∷ []) key (run memory (encrypt_entry plain (7 ∷ 8 ∷ []) key) store).0
decrypt_entry-encrypt_entry_example =
    decrypt_entry-encrypt_entry memory plain plain-IsAead twelve (7 ∷ 8 ∷ []) key store thirty_two

-- A derivation that fills the output with zeros, from salts that are not empty.
abbrev zeros : Argon2
zeros = record {
  Params = ℕ;
  salt_from_b64 = λ salt. ok salt;
  new_params = λ memory_cost time lanes size. ok memory_cost;
  hash_password_into = λ params password salt n. ok (replicate n 0);
}

abbrev derived : VaultKey
derived = record { inner = replicate 32 0 }

derivation : derive_key zeros "hunter2" "c29tZXNhbHQ" ≡ ok derived
unfolding derive_key
derivation = refl
