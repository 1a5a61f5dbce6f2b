-- ===== src/Api.antt =====
-- The HTTP API (internal/api): users, and authentication.
pub mod Users
pub mod Auth
