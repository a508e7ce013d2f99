-- ===== src/Persistence/Outbox/Kept.antt =====
-- What holds of the outbox through every one of its operations.
pub mod Rows
pub mod Events
pub mod Statuses
