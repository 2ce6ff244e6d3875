-- ===== src/Auth.antt =====
-- modules/auth and modules/users: accounts, access tokens and refresh tokens.
pub mod Database
pub mod Result
pub mod Tokens
pub mod Sessions
mod Sample
mod Tests
