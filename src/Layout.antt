-- ===== src/Layout.antt =====
-- The tiling layout of a window (crates/pyre-proto/src/layout.rs): a tree of horizontal and
-- vertical splits over panes. A `PaneId` is a UUID, here a number that is only compared. A method
-- that mutates the tree returns the new one.
pub mod Tree
pub mod Edit
pub mod Geometry
pub mod Weights
pub mod Close
pub mod Split
pub mod RootOnly
pub mod WellSplit
pub mod Reach
pub mod Area
pub mod Focus
pub mod Direction
pub mod Resize
pub use Tree.*
