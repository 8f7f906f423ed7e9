-- ===== src/Core.antt =====
-- src/core: the simulation clock, actions, their handlers and the future action list.
pub mod Clock
pub mod StateMachine
pub mod Action
pub mod ActionList
pub mod Symbol
pub mod UtcTime
pub mod SteadyClock
