-- ===== src/Store.antt =====
-- internal/store: the tables and their constraints, the SQL statements, and the store interface
-- that the rest of the program calls.
pub mod Sql
pub mod Models
pub mod Queries
pub mod Postgres
pub mod Interfaces
pub mod Integrity
