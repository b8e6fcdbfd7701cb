-- ===== src/Samples.antt =====
-- Small concrete states, on which the theorems are applied.
pub mod Data
mod Stores
mod Registries
mod Matching
mod Brokers
mod Wires
pub mod Messages
mod Servers
mod Boards
mod Subscriptions
