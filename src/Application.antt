-- ===== src/Application.antt =====
-- The application layer, internal/application.
pub mod Command
pub mod Projection
pub mod Query
