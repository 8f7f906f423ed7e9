-- ===== src/Objects.antt =====
-- src/objects: simulation objects, their action managers and the lists that hold them.
pub mod ActionManager
pub mod ActionHistory
pub mod Object
pub mod Container
pub mod Cache
pub mod Relations
