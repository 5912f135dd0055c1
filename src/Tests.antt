-- ===== src/Tests.antt =====
-- The theorems at work on a small team, with the client of Prisma/Rows.antt.
mod Data
mod Membership
mod Sessions
mod Access
mod Records
mod Inviting
mod Board
mod Work
mod Talk
mod Calendar
mod Agent
mod Tenants
mod Border
mod Night
mod Files
