-- ===== src/Traci.antt =====
-- src/traci: the launch of SUMO and the connection to it. SUMO's library is a copy of another
-- project's.
pub mod Connect
pub mod Launcher
