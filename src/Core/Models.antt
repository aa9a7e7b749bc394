-- ===== src/Core/Models.antt =====
-- crates/core/src/models/mod.rs: the rows of the tables, and the bodies of requests and responses.
-- A UUID is a 128-bit number that is only compared, an instant is a number of time units that is
-- only compared, and a byte is a number.
use nyrex.Prelude.{ℕ, String, Bool, Option, List}
use nyrex.Prelude.Int.{ℤ}

abbrev pub Uuid : Type 0
Uuid = ℕ

-- In microseconds, the resolution that a TIMESTAMPTZ keeps of a `DateTime<Utc>`.
abbrev pub DateTime : Type 0
DateTime = ℕ

abbrev pub Bytes : Type 0
Bytes = List ℕ

pub record User : Type 0 where
  pub id : Uuid
  pub email : String
  pub password_hash : String
  pub display_name : Option String
  pub sso_provider : Option String
  pub sso_sub : Option String
  pub created_at : DateTime
  pub updated_at : DateTime

pub record RefreshToken : Type 0 where
  pub id : Uuid
  pub user_id : Uuid
  pub token_hash : String
  pub expires_at : DateTime
  pub revoked : Bool
  pub created_at : DateTime

-- The body of `POST /auth/register`.
pub record RegisterRequest : Type 0 where
  pub email : String
  pub password : String
  pub display_name : Option String

-- The body of `POST /auth/login`.
pub record LoginRequest : Type 0 where
  pub email : String
  pub password : String

-- The body of `POST /auth/refresh`.
pub record RefreshRequest : Type 0 where
  pub refresh_token : String

pub record AuthResponse : Type 0 where
  pub access_token : String
  pub refresh_token : String
  pub token_type : String
  pub expires_in : ℕ

-- The claims of an access token, in Unix seconds.
pub record TokenClaims : Type 0 where
  pub sub : String
  pub iat : ℕ
  pub exp : ℕ

pub record Note : Type 0 where
  pub id : Uuid
  pub user_id : Uuid
  pub title_cipher : Bytes
  pub content_cipher : Bytes
  pub nonce : Bytes
  pub version : ℤ
  pub format : String
  pub tags : List String
  pub created_at : DateTime
  pub updated_at : DateTime
  pub deleted_at : Option DateTime

pub record VaultEntry : Type 0 where
  pub id : Uuid
  pub note_id : Uuid
  pub user_id : Uuid
  pub file_cipher : Bytes
  pub nonce : Bytes
  pub mime_type : Option String
  pub file_size : ℤ
  pub created_at : DateTime

-- A JSON value is one of the crate serde_json. The operation is 'create', 'update' or 'delete'.
pub record SyncEvent (Value : Type 0) : Type 0 where
  pub id : ℤ
  pub user_id : Uuid
  pub entity_type : String
  pub entity_id : Uuid
  pub operation : String
  pub payload : Option Value
  pub client_id : String
  pub created_at : DateTime
