-- ===== src/Process.antt =====
-- question/kernel/processes.c, split by what its functions do.
pub mod State
pub mod Invariant
pub mod Table
pub mod Share
pub mod Wait
pub mod Files
