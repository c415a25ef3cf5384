-- ===== src/Tests.antt =====
-- Tests: the theorems at concrete states.
mod World
mod Process
mod Ram
mod Scheduler
mod Calls
mod Machine
mod Files
mod Disk
mod Store
mod FileSystem
mod User
mod Philosophers
