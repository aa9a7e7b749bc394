-- ===== src/Api.antt =====
-- services/api: the HTTP server.
pub mod Libraries
pub mod AuthUtils
pub mod Jwt
pub mod Response
pub mod Middleware
pub mod Routes
pub mod Server
pub mod Http
pub mod Router
pub mod Start
pub mod UnitTests
