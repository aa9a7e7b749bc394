-- ===== src/Api/Routes.antt =====
-- services/api/src/routes: the handlers.
pub mod Auth
pub mod Sync
