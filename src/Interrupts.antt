-- ===== src/Interrupts.antt =====
-- munux-os/kernel/interrupts: the descriptor table and the dispatch of interrupts.
pub mod Idt
