-- ===== src/Core.antt =====
-- crates/core: the errors, the records that the crates share, and the interfaces of the stores.
pub mod Error
pub mod Models
pub mod Traits
pub mod UnitTests
