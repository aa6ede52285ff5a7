-- ===== src/Complete/Safety.antt =====
-- The operations of experiments/05_complete_monitor.c keep the record store valid.
pub mod Lemmas
pub mod Planting
pub mod Release
pub mod Room
pub mod Link
pub mod Add
pub mod Search
pub mod Exit
pub mod Clear
