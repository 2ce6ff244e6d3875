-- ===== src/Notes.antt =====
-- modules/notes
pub mod Import
pub mod Database
pub mod Service
pub mod Trees
pub mod Search
pub mod Controller
