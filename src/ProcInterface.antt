-- ===== src/ProcInterface.antt =====
-- experiments/03_proc_interface.c, a directory of /proc with a counter and a message.
pub mod State
pub mod Files
pub mod Module
pub mod Message
pub mod History
pub mod Counter
pub mod Lifecycle
mod Tests
