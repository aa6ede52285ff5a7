-- ===== src/KernelList.antt =====
-- experiments/02_kernel_list.c, a bounded list of records with identifiers.
pub mod State
pub mod Records
pub mod Interface
pub mod Invariant
pub mod History
pub mod Eviction
pub mod Removal
mod Tests
