-- ===== src/Database.antt =====
-- The tables of migrations/*.sql that the TypeScript code reads and writes, and transactions.
pub mod Rows
pub mod Tx
pub mod Tables
