-- ===== src/Kernel.antt =====
-- munux-os/kernel/kernel.c: the screen, the log, the shell and the memory that the boot finds.
pub mod Terminal
pub mod Panic
pub mod Console
pub mod Shell
pub mod Syscall
pub mod Boot
pub mod Checks
