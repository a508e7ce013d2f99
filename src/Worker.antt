-- ===== src/Worker.antt =====
-- The workers, internal/infrastructure/worker.
pub mod OutboxWorker
pub mod ProjectionWorker
pub mod Consumer
