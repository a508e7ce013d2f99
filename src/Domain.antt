-- ===== src/Domain.antt =====
-- The domain layer, internal/domain.
pub mod Values
pub mod Events
pub mod Order
