-- ===== src/Application/Projection/Convergence.antt =====
-- The events of an order, projected one after another, against the order itself.
pub mod Steps
pub mod Shown
pub mod Added
pub mod Streams
pub mod Methods
pub mod Orders
