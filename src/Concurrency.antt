-- ===== src/Concurrency.antt =====
-- experiments/04_concurrency_control.c, one list under three locks, and worker threads.
pub mod State
pub mod Items
pub mod Workers
pub mod Interface
pub mod Invariant
pub mod Listing
pub mod History
pub mod Starts
pub mod Threads
mod Tests
