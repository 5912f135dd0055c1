-- ===== src/Meetings.antt =====
-- modules/meetings: the repository, the service and what it keeps.
pub mod Repository
pub mod Input
pub mod Service
pub mod Tenancy
pub mod Times
pub mod Creation
