-- ===== src/Networking.antt =====
-- src/networking: the router of a vehicle with its clock, its position, its access to the channel and
-- the actions that it waits for. Vanetza's parts are parameters.
pub mod Runtime
pub mod Tracker
pub mod AccessInterface
pub mod Position
pub mod Dcc
pub mod Router
