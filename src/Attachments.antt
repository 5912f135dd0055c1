-- ===== src/Attachments.antt =====
-- modules/attachments: files that are attached to a task.
pub mod Storage
pub mod Types
pub mod Service
