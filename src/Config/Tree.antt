-- ===== src/Config/Tree.antt =====
-- Positions, paths and writes in a tree.
mod Children
mod Writes
mod Nodes
mod Values
mod Apart
pub use Children.*
pub use Writes.*
pub use Nodes.*
pub use Values.*
pub use Apart.*
