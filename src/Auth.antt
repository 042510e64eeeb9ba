-- ===== src/Auth.antt =====
-- Browser login and sessions: app/app/application/services/auth_service.py and what it uses.
pub mod Errors
pub mod Principal
pub mod Profile
pub mod Sessions
pub mod Claims
pub mod Service
pub mod Login
pub mod Browser
pub mod Access
pub mod ServiceIdentity
pub mod Oidc
pub mod Memory
mod Tests
