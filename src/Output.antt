-- ===== src/Output.antt =====
-- src/output: the timings that a run writes to a database.
pub mod Backend
