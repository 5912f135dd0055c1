-- ===== src/Organizations.antt =====
-- modules/organizations: members and invitations of a tenant.
pub mod Repository
pub mod Transactions
pub mod Acceptance
pub mod Members
pub mod Roles
pub mod Invitations
pub mod Accept
pub mod Joining
pub mod Inviting
pub mod Service
pub mod Cascade
pub mod Lifecycle
pub mod Removal
