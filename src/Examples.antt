-- ===== src/Examples.antt =====
-- Concrete runs and databases for the theorems.
pub mod Codec
pub mod Runs
pub mod Events
pub mod History
pub mod Storage
pub mod Rebuild
pub mod Leases
pub mod Tools
pub mod Engine
pub mod Agreement
pub mod Throttle
pub mod Timeline
pub mod Services
pub mod Worker
