-- ===== src/Store/Queries.antt =====
-- internal/store/queries: the statements, one module for each table.
pub mod Events
pub mod Endpoints
pub mod Attempts
