-- ===== src/Std.antt =====
-- The containers of the C++ standard library, as the source uses them.
pub mod Map
pub mod Set
pub mod Names
