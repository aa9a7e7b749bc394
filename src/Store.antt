-- ===== src/Store.antt =====
-- crates/store: the two stores over PostgreSQL. A store holds nothing but the pool, so its methods
-- are programs.
pub mod Notes
pub mod Auth
pub mod Schema
pub mod Queries
pub mod Migrations
