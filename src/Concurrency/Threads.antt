-- ===== src/Concurrency/Threads.antt =====
-- The functions of experiments/04_concurrency_control.c run by threads that interleave.
pub mod Moves
pub mod System
pub mod Tally
pub mod Held
pub mod Locks
pub mod Local
pub mod Guarded
pub mod Discipline
pub mod Window
pub mod Progress
pub mod Finish
pub mod Solo
pub mod Turns
pub mod Races
pub mod Faults
pub mod Readers
pub mod Alone
pub mod Calls
