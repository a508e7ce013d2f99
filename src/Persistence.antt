-- ===== src/Persistence.antt =====
-- Write-side and read-side persistence, internal/infrastructure/persistence.
pub mod Models
pub mod Database
pub mod Mapper
pub mod Transaction
pub mod Orders
pub mod Outbox
pub mod ReadModels
pub mod Keys
pub mod Keeps
