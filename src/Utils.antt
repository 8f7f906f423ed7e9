-- ===== src/Utils.antt =====
-- src/utils: guarded holders of values.
pub mod ReadOnly
pub mod ContextContainer
pub mod PureLocal
pub mod AnyMap
