-- ===== src/Observability.antt =====
-- Logs and metrics, internal/infrastructure/observability (with the stores of both in
-- internal/infrastructure/persistence: log_store.go, http_log.go, metric_store.go). The libraries zap,
-- OpenTelemetry and GORM are parameters.
pub mod Values
pub mod Entries
pub mod Endpoint
pub mod Levels
pub mod LogStore
pub mod Hooks
pub mod Bridge
pub mod GormLogger
pub mod MetricStore
pub mod Metrics
