-- ===== src/Tests.antt =====
-- Runs on concrete data.
pub mod Toy
mod Sync
pub mod Auth
mod Session
mod Guards
mod Store
mod Crypto
mod Server
mod Race
mod Exchange
mod Registry
pub mod Router
mod Access
mod Start
mod Stored
mod Liveness
mod Migrations
mod Crates
