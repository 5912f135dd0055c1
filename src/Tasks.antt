-- ===== src/Tasks.antt =====
-- modules/tasks and constants/task.ts.
pub mod States
pub mod Filter
pub mod Repository
pub mod Input
pub mod Service
pub mod Effects
pub mod Guarded
pub mod Lists
pub mod Created
