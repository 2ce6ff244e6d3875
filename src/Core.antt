-- ===== src/Core.antt =====
-- src/core
pub mod Limiters
pub mod Tree
pub mod Selectors
pub mod Config
