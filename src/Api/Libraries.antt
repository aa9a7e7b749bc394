-- ===== src/Api/Libraries.antt =====
-- The crates that the server calls for what it does not do itself: uuid, chrono, argon2, blake3 and
-- jsonwebtoken. They are parameters; an error of theirs is used through its text alone.
use nyrex.Prelude.{ℕ, ◌+◌, ◌<◌, ◌≡◌, String, Bool, true, Option, some, Result, ok}
use nyrex.Prelude.Int.{ℤ, pos}
use nyrex.Core.Models.{Uuid, DateTime, Bytes, TokenClaims}

-- `jsonwebtoken::Algorithm`, of which the server names one.
pub data Algorithm : Type 0 where
  eddsa : Algorithm

-- `jsonwebtoken::Header`
pub record Header : Type 0 where
  pub typ : Option String
  pub alg : Algorithm

pub record Libraries : Type 0 where
  -- `Uuid::to_string` and `Uuid::parse_str`, whose error is dropped
  pub uuid_to_string : Uuid → String
  pub uuid_parse_str : String → Option Uuid
  -- `DateTime::timestamp`, and `t + Duration::seconds(n)` and `t + Duration::days(n)`
  pub timestamp : DateTime → ℤ
  pub add_seconds : DateTime → ℕ → DateTime
  pub add_days : DateTime → ℕ → DateTime
  -- `Argon2::default().hash_password(password, &salt)`, as the PHC text
  pub argon2_hash_password : String → String → Result String String
  -- `PasswordHash::new(hash)`, which keeps the text that it has parsed
  pub password_hash_new : String → Result String String
  -- `Argon2::default().verify_password(password, &parsed).is_ok()`
  pub argon2_verify_password : String → String → Bool
  -- `blake3::hash(token).to_hex()`
  pub blake3_hex : String → String
  -- `jsonwebtoken::encode` with `EncodingKey::from_ed_der(key)`
  pub jwt_encode : Header → TokenClaims → Bytes → Result String String
  -- `jsonwebtoken::decode` at an instant, with `DecodingKey::from_ed_der(key)` and
  -- `Validation::new(alg)`
  pub jwt_decode : DateTime → String → Bytes → Algorithm → Result TokenClaims String

-- What the documentation of the crates says of these functions.
pub record IsLawful (L : Libraries) : Type 0 where
  pub uuid_parse_str-to_string : (u : Uuid) → L.uuid_parse_str (L.uuid_to_string u) ≡ some u
  pub timestamp-add_seconds :
      (t : DateTime) (n k : ℕ)
      → L.timestamp t ≡ pos k
      → L.timestamp (L.add_seconds t n) ≡ pos (k + n)
  -- A text that the parser of PHC strings gets from the hasher is verified by the same password.
  pub verify-hash :
      (password salt hash : String)
      → L.argon2_hash_password password salt ≡ ok hash
      → (parsed : String) × (L.password_hash_new hash ≡ ok parsed)
        × (L.argon2_verify_password password parsed ≡ true)

-- A public key decodes what its private key has signed, until the claims expire.
abbrev pub IsKeyPair : Libraries → Bytes → Bytes → Type 0
IsKeyPair L private_key public_key =
    (header : Header) (claims : TokenClaims) (token : String) (t : DateTime) (k : ℕ)
    → L.jwt_encode header claims private_key ≡ ok token
    → L.timestamp t ≡ pos k
    → k < claims.exp
    → L.jwt_decode t token public_key header.alg ≡ ok claims
