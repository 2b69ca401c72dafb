-- ===== src/Auth.antt =====
-- internal/auth: users, their sessions, the sign-in with a provider, and what the routes require.
pub mod Sessions
pub mod Oauth
pub mod Middleware
pub mod Manager
