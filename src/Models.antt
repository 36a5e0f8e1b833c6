-- ===== src/Models.antt =====
-- The queries of app/models/, a module for each file. Each is a function of NOW() and the tables.
pub mod Boards
pub mod Files
pub mod Users
pub mod Admin
pub mod AuditLogs
