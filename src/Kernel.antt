-- ===== src/Kernel.antt =====
-- kernel/: the tables of processes and tasks.
pub mod Names
pub mod Process
pub mod Scheduler
pub mod UserScheduler
mod Tests
