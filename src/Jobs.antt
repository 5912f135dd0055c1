-- ===== src/Jobs.antt =====
-- src/jobs: the work that is done in the background.
pub mod Cleanup
pub mod Batches
pub mod Cleaned
