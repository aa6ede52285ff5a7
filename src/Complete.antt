-- ===== src/Complete.antt =====
-- experiments/05_complete_monitor.c, the complete process monitor.
pub mod State
pub mod Matches
pub mod Index
pub mod Events
pub mod Show
pub mod Control
pub mod Module
pub mod Invariant
pub mod View
pub mod Safety
pub mod Spec
pub mod Refinement
pub mod Stats
pub mod History
pub mod Filtering
pub mod Listing
pub mod Lifecycle
mod Tests
