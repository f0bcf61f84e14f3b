-- ===== src/Tests.antt =====
-- Runs at concrete inputs, and the theorems at concrete inputs.
pub mod Chain
pub mod Delivery
pub mod Deliveries
pub mod Forks
pub mod Runs
pub mod Claims
pub mod Clients
pub mod Batches
pub mod Networks
pub mod Wires
pub mod Pacers
pub mod Benches
