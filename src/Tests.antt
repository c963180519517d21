-- ===== src/Tests.antt =====
-- Runs of the model on concrete inputs, and the theorems applied to them.
mod Startup
mod Bridge
mod Discovery
mod Overlap
mod Tiers
pub mod Domain
pub mod Modbus
pub mod Service
pub mod UseCase
