-- ===== src/Intercept.antt =====
-- experiments/01_syscall_intercept.c, which counts forks and exits.
pub mod Probes
pub mod Counting
pub mod Processors
pub mod Overlaps
pub mod Lifecycle
mod Tests
