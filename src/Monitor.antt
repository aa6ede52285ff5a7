-- ===== src/Monitor.antt =====
-- process_monitor.c, the basic process monitor.
pub mod State
pub mod Events
pub mod Interface
pub mod Module
pub mod Invariant
pub mod Marking
pub mod Window
pub mod Lifecycle
mod Tests
