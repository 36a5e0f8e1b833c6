-- ===== src/Services.antt =====
-- The service functions of app/services/, a module for each file.
pub mod Boards
pub mod Files
pub mod Admin
pub mod Auth
pub mod Users
