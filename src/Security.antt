-- ===== src/Security.antt =====
-- infrastructure/security: what the server does against guessed passwords.
pub mod BruteForce
pub mod SecretBox
