-- ===== src/Tests.antt =====
-- Concrete inputs for the theorems.
pub mod World
pub mod CoreRuns
pub mod ObjectRuns
pub mod KernelRuns
pub mod RadioRuns
pub mod SymbolRuns
pub mod PowerRuns
pub mod VehicleRuns
pub mod RouterRuns
pub mod SumoRuns
pub mod StartRuns
pub mod ThreadRuns
pub mod RegistryRuns
