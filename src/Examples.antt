-- ===== src/Examples.antt =====
-- Concrete stand-ins for the libraries, tests, and the theorems at concrete inputs.
pub mod Memory
pub mod Orders
pub mod Commands
pub mod Outbox
pub mod Projection
pub mod Delivery
mod Requests
pub mod System
mod Run
mod Overtaking
mod Keys
mod Service
mod Convergence
