-- ===== src/Drivers.antt =====
-- munux-os/kernel/drivers: the device drivers.
pub mod Keyboard
pub mod Timer
pub mod Ports
pub mod Disk
pub mod Serial
pub mod Mouse
