-- ===== src/Lib.antt =====
-- Nyrex: a server that stores notes encrypted by its clients, signs its users in, and reconciles
-- the notes of several devices, with the crate that the clients encrypt with.
--
-- The parts, and the files that model them (paths from the repository's root):
--   * Core: crates/core/src. The error type (error.rs), the records of rows, requests and answers
--     (models/mod.rs), and the traits (traits/mod.rs) as records of operations.
--   * Effect: what the code awaits. `Program` is an async function as a tree of the requests that
--     it makes of the database, the clock and the random generators, and `Handler` is one whose
--     body uses `?`. A database query is a `Statement` of a table: the parts of the SQL text that
--     the code gives, as functions. What answers the requests is not code of the repository: it is
--     a parameter (`Host`), and `IsPostgres` states what PostgreSQL documents of each statement: it
--     is carried out as a whole, under the constraints of crates/store/migrations, or it fails and
--     changes nothing, at any point. `Memory` is a host that meets this, for the examples. `Logic`
--     has the weakest preconditions that the proofs use.
--     `Tasks` lets the requests of several tasks interleave in every order, as a step relation, and
--     `Evolution` and `Schema` are what the tables keep through all of them, `Rows` what every row
--     keeps, and `Frame` which tables a statement leaves alone; `Only` says which statements a
--     program makes, `Permits` which of them change rows as they may, `Tasks.Bound` how many there
--     are, `Clock` follows the times that a program reads, `Sequence` has the laws of one program
--     after another, and `Calls` those of a run of calls against an abstract state.
--   * Store: crates/store/src/pg. `Store.Notes` is mod.rs (`PgNyrexStore`) and `Store.Auth` is
--     auth.rs (`PgAuthStore`), each method under its own name. `Store.Notes.Spec` is what the trait
--     `NoteStore` promises, on a shelf of notes without the database, and `Store.Auth.Spec` what the
--     account store does, on a registry of accounts and sessions; their modules `Refinement` relate
--     the methods to them. `Store.Migrations` has the statements of
--     crates/store/migrations as data, on columns with their types, defaults and keys
--     (`Store.Schema`). `Store.Queries` has what the SQL texts of the stores and of routes/sync.rs
--     say of the columns, with the fields of the records that rows are read into, and
--     `Store.Queries.Typing` checks them against the tables.
--   * Sync: crates/sync/src/lib.rs, `SyncEngine::reconcile_note`.
--   * Api: services/api/src. `AuthUtils` and `Jwt` are auth_utils.rs and jwt.rs; `Middleware` is
--     middleware/auth.rs; `Routes.Auth` and `Routes.Sync` are the handlers of routes/auth.rs and
--     routes/sync.rs. The rest of a handler after an early return, and the body of a loop, have a
--     name of their own: `create_account`, `login_as`, `rotate`, `sync_note`. `Start` is the first
--     half of main.rs, up to the shared state, and `Server` what its routes do with a body that
--     axum has read; `Server.Makes` has every statement that they make. `Router` builds the router
--     by the calls of main.rs, on whole requests; `Http` has these calls and the extractors of
--     axum, whose dispatch is a parameter under what axum documents of it. `Libraries` has the
--     operations of argon2, blake3, uuid, chrono and jsonwebtoken that they call, as parameters.
--   * Crypto: crates/crypto/src. Keys, AES-256-GCM and the derivation by Argon2id, over the
--     libraries' operations as parameters.
--   * Search: crates/search/src/lib.rs, a placeholder.
--   * `UnitTests` in Core, Crypto and Api: the crates' own unit tests, as programs that panic where
--     an assertion fails.
--   * Tests: a toy instance of every parameter, and each result at a concrete input.
--
-- The router finds the route of a request by its path and method. The request goes through the
-- layer `require_auth`, where its route is protected, to its handler; the handler calls the
-- stores, and the sync handler calls the reconciliation and writes what it accepts. Handlers share
-- the database alone. `run` is a handler with no other one between its requests, and `Steps` is any
-- number of them interleaved.
--
-- Numbers: `version` is an i32, as an integer whose increment at the last value panics or wraps, by
-- the build's profile, which is a parameter (`overflow_checks`). Times are numbers, since the code
-- only orders them and adds durations by chrono, a parameter; they count microseconds, which is what
-- the database keeps of the nanoseconds of chrono. Casts to `usize` of a timestamp wrap
-- at 2 ^ 64. Loops run over lists and are structural recursion, so no fuel is needed.
--
-- The database is taken to have the tables of crates/store/migrations, with vault_entries as the
-- third migration declares it. The migrations themselves leave another table of that name, as
-- `Store.Queries.Typing` shows: on a database that they made, every INSERT of an upload is one of the
-- statements that fail.
--
-- Not modelled: the listener of services/api/src/main.rs; the answers to requests that match no
-- route, which are axum's own; the indexes of the tables; serialisation by serde; the pool of
-- connections and its limit of five, and waiting for it or for the locks of rows; texts that are
-- longer than their column VARCHAR(n), but for the format of a note; the wiping of keys; and the
-- Flutter client.
pub mod Prelude
pub mod Core
pub mod Effect
pub mod Store
pub mod Sync
pub mod Api
pub mod Crypto
pub mod Tests
pub mod Search
