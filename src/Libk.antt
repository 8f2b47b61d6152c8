-- ===== src/Libk.antt =====
-- munux-os/kernel/lib: the C library of the kernel.
-- A C string that is only read is the list of its bytes before the NUL; a buffer that is written
-- is a memory and the index of its first byte.
pub mod Ctype
pub mod Conv
pub mod Printf
pub mod Strings
