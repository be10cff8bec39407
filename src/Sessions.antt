-- ===== src/Sessions.antt =====
-- The session registry of the single-process daemon (crates/pyred/src/session.rs): sessions with
-- their panes and their windows, which own the tiling layouts. An operation runs as one step; the
-- answers of the pseudo-terminal, of a signal and of the database are arguments, as are fresh UUIDs
-- and the clock. Hash maps are association lists in the order of insertion.
pub mod State
pub mod Panes
pub mod Windows
pub mod Exits
pub mod Listing
pub mod Ops
pub mod Order
pub mod Regular
pub mod Owned
pub mod Renamed
pub mod Kept
pub mod Lookup
pub mod PaneWrites
pub mod WriteFirst
pub mod Failures
pub mod Opened
pub mod Splits
pub mod Ghosts
pub use State.*
