-- ===== src/Projects.antt =====
-- modules/projects: the keys of projects, the repository, the service and what it keeps.
pub mod Keys
pub mod Repository
pub mod Service
pub mod Unused
pub mod Tenancy
pub mod Creation
pub mod Deletion
pub mod Lists
