-- ===== src/Start.antt =====
-- The start of a simulation: src/objects/SimulationManager.cpp, src/objects/SimulationStarter.cpp and
-- src/core/Config.cpp.
pub mod Config
pub mod Simulation
pub mod Threads
