-- ===== src/Tests/Crates.antt =====
-- The unit tests of the repository, over stand-ins for the libraries.
use nyrex.Prelude.{
  ℕ, true, ◌≡◌, refl, Option, none, some, [], ◌∷◌, replicate, ok, if◌then◌else◌, ◌==◌,
}
use nyrex.Prelude.Text.{str_eq}
use nyrex.Core.Models.{Bytes, Note}
use nyrex.Core.UnitTests.{test_note_serialization}
use nyrex.Effect.Host.{run}
use nyrex.Effect.Memory.{memory, reply}
use nyrex.Crypto.Cipher.{AesGcm}
use nyrex.Crypto.Kdf.{Argon2}
use nyrex.Crypto.UnitTests.{
  test_round_trip_encryption, test_decryption_fails_with_bad_key, test_derive_key_determinism,
}
use nyrex.Api.UnitTests.{
  test_password_hash_and_verify, test_token_hashing_deterministic, test_jwt_round_trip,
}
use nyrex.Search.{it_works}
use nyrex.Tests.Toy.{toy, store, note, ones, read_ones}

-- A cipher that puts the first byte of its key in front of the text.
abbrev opened : Bytes → Bytes → Option Bytes
opened (k ∷ key) (tag ∷ text) = if k == tag then some text else none
opened key text = none

abbrev sealed : Bytes → Bytes → Option Bytes
sealed (k ∷ key) text = some (k ∷ text)
sealed key text = none

abbrev tagged : AesGcm
tagged = record {
  Aes256Gcm = Bytes;
  new_from_slice = λ key. some key;
  encrypt = λ c nonce text. sealed c text;
  decrypt = λ c nonce text. opened c text;
}

-- A derivation that tells the password of the tests from the other one.
abbrev told_apart : Argon2
told_apart = record {
  Params = ℕ;
  salt_from_b64 = λ salt. ok salt;
  new_params = λ memory_cost time lanes size. ok memory_cost;
  hash_password_into =
      λ params password salt n. ok (replicate n (if str_eq password "hunter2" then 2 else 3));
}

run-test_round_trip_encryption : (run memory (test_round_trip_encryption tagged) store).0 ≡ some tt
unfolding test_round_trip_encryption reply
run-test_round_trip_encryption = refl

run-test_decryption_fails_with_bad_key :
    (run memory (test_decryption_fails_with_bad_key tagged) store).0 ≡ some tt
unfolding test_decryption_fails_with_bad_key reply
run-test_decryption_fails_with_bad_key = refl

run-test_derive_key_determinism :
    (run memory (test_derive_key_determinism told_apart) store).0 ≡ some tt
unfolding test_derive_key_determinism reply
run-test_derive_key_determinism = refl

run-test_password_hash_and_verify :
    (run memory (test_password_hash_and_verify toy) store).0 ≡ some tt
unfolding test_password_hash_and_verify reply
run-test_password_hash_and_verify = refl

run-test_token_hashing_deterministic :
    (run memory (test_token_hashing_deterministic toy) store).0 ≡ some tt
unfolding test_token_hashing_deterministic reply
run-test_token_hashing_deterministic = refl

run-test_jwt_round_trip :
    (run memory (test_jwt_round_trip toy (λ text. some (1 ∷ []))) store).0 ≡ some tt
unfolding test_jwt_round_trip reply ones read_ones
run-test_jwt_round_trip = refl

-- The note of the test, on the small database.
abbrev tested : Note
tested = record (note 40 41 1) {
  title_cipher = 1 ∷ 2 ∷ 3 ∷ [];
  content_cipher = 4 ∷ 5 ∷ 6 ∷ [];
  nonce = replicate 12 0;
  tags = "test" ∷ [];
  created_at = 1000;
  updated_at = 1000;
}

run-test_note_serialization :
    (run memory (test_note_serialization (λ n. ok "{}") (λ json. ok tested)) store).0 ≡ some tt
unfolding test_note_serialization reply
run-test_note_serialization = refl

run-it_works : (run memory (it_works true) store).0 ≡ some tt
run-it_works = refl
