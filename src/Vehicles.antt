-- ===== src/Vehicles.antt =====
-- The vehicles of a simulation: src/objects/TemporaryObject.cpp, src/objects/ObjectFactory.cpp and
-- src/mobility/MobilityManager.cpp.
pub mod Temporary
pub mod Factory
pub mod IdMapper
pub mod Tasks
pub mod Manager
pub mod Traci
pub mod Sumo
pub mod SumoManager
pub mod Update
pub mod Vehicle
