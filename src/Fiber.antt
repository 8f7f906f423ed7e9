-- ===== src/Fiber.antt =====
-- src/fiber: a scheduler of fibers on Boost.Fiber.
pub mod WorkStealing
