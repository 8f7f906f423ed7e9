-- ===== src/Radio.antt =====
-- src/radio: transmissions, the decision who receives them, and the radio that all vehicles share.
pub mod Transmission
pub mod Decider
pub mod Medium
pub mod MediumAccess
