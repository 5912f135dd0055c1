-- ===== src/Prisma/Rows.antt =====
-- A client over lists of rows: what the parameter of Prisma.antt asks for can be met. The tests run
-- on it.
pub mod Lists
pub mod Writes
pub mod Client
