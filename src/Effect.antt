-- ===== src/Effect.antt =====
-- What the server does to the world: SQL statements, the clock and random values, as data, and
-- programs that issue them.
pub mod Table
pub mod Statement
pub mod Program
pub mod Handler
pub mod Host
pub mod Asserts
pub mod Logic
pub mod Clock
pub mod Sequence
pub mod Memory
pub mod Tasks
pub mod Only
pub mod Frame
pub mod Rows
pub mod Permits
pub mod Evolution
pub mod Schema
pub mod Calls
