-- ===== src/Auth.antt =====
-- Package auth (internal/auth): the login throttle, WebSocket tickets and the OIDC retry.
pub mod Throttle
pub mod Tickets
pub mod Retry
