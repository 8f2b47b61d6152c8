-- ===== src/Process.antt =====
-- munux-os/kernel/process: process control blocks, the process list and the ready queues.
pub mod Pcb
pub mod Links
pub mod Scheduler
pub mod Lifecycle
