-- ===== src/Crypto.antt =====
-- crates/crypto: vault keys, their derivation and authenticated encryption.
pub mod Error
pub mod Key
pub mod Cipher
pub mod Kdf
pub mod Laws
pub mod UnitTests
