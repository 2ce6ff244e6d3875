-- ===== src/Notes/Import.antt =====
-- modules/notes/import and service/notesImport.service.ts
pub mod Paths
pub mod Plan
pub mod Batches
pub mod Links
mod Tests
