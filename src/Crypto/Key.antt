-- ===== src/Crypto/Key.antt =====
-- crates/crypto/src/key.rs: `VaultKey`. The wiping of its memory on drop is not modelled.
use nyrex.Prelude.{ℕ, String, Result, ok, err, length, ◌==◌, if◌then◌else◌}
use nyrex.Core.Models.{Bytes}
use nyrex.Crypto.Error.{CryptoError, invalid_key_length}

-- The array of 32 bytes, as the list of them.
pub record VaultKey : Type 0 where
  pub inner : Bytes

abbrev pub key_size : ℕ
key_size = 32

-- `VaultKey::new`
unfoldable pub new : Bytes → Result VaultKey CryptoError
new bytes =
    if length bytes == key_size
    then ok (record { inner = bytes })
    else err (invalid_key_length key_size (length bytes))

unfoldable pub as_bytes : VaultKey → Bytes
as_bytes key = key.inner

-- The text of a key for `{:?}` shows none of its bytes.
abbrev pub fmt : VaultKey → String
fmt key = "VaultKey([REDACTED])"
