-- ===== src/Plugin.antt =====
-- rusty-gasket/src/plugin.rs and its children.
pub mod Graph
pub mod Ordering
pub mod Engine
pub mod Router
pub mod Actions
