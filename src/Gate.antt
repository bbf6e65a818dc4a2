-- ===== src/Gate.antt =====
-- The ReOMP gates (src/reomp): what is shared by the gates, and a child for each part of them.
mod Defs
pub use Defs.*
pub mod File
pub mod Clock
pub mod Reduction
pub mod Concurrent
pub mod Tid
pub mod Speculative
pub mod Settings
pub mod Control
