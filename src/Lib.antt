-- ===== src/Lib.antt =====
-- Verification of the C part of the Munux OS kernel (munux-os/kernel).
--
-- The parts and where they stand:
--
-- * Memory.Pmm models memory/pmm.c, the bitmap of physical frames. `frame_bitmap` is a function
--   from word index to word, as nothing in the code bounds the array; `total_frames` and
--   `used_frames` are the fields of the record Pmm. Each C function is a function that takes and
--   returns the record; `pmm_alloc_frame` also returns the address. The loops of
--   `find_free_frame` and `pmm_init` count down the rounds left, so they end by construction.
-- * Memory.Vmm models memory/vmm.c over a memory of 32-bit words, in which the page directory and
--   the page tables stand; a new table takes its frame from Memory.Pmm. Memory.Bytes models
--   memory/utils.c over a memory of bytes.
-- * Interrupts.Idt models interrupts/idt.c: the descriptor table, and the dispatch of a hardware
--   interrupt as the list of what it does to the ports and which handler it calls.
-- * Process models process/process.c and process/scheduler.c. The blocks are a function from address
--   to record, and both the process list and the ready queues run through their field `next`, as
--   in the code. A walk along `next` takes as fuel the number of steps it may go, and `none` means
--   that it goes on; the theorems say which fuel is enough. The allocator is a parameter, and
--   `schedule` returns the pair of processes that `switch_to_process` switches between.
--   Process.Scheduler.Robin is the specification of the scheduler on lists.
-- * Drivers.Keyboard models drivers/keyboard.c: the handler of IRQ 1, which turns scan codes into
--   characters of a ring of 256 bytes, and the readers of the ring. `inb(0x60)` is the argument
--   of the handler. `keyboard_getchar` takes the list of the scan codes that arrive while it
--   halts, and `none` means that it still waits.
-- * Drivers.Timer models drivers/timer.c. The wait takes the number of timer interrupts to come,
--   and `none` means that it still waits after the last.
-- * Drivers.Disk, Drivers.Serial and Drivers.Mouse model drivers/disk.c, drivers/serial.c and
--   drivers/mouse.c over Drivers.Ports.Bus: what stands behind the ports is a parameter, a type of
--   states with what each access does. What the disk and the serial line rely on is in
--   Drivers.Disk.Ata (a register-level ATA device, with an instance in Drivers.Disk.Tests) and
--   Drivers.Serial.Uart. The polls of the disk count down ATA_TIMEOUT, as in the code; a wait for
--   the serial line, which the code does not bound, takes the number of polls as fuel.
-- * Memory.Heap models memory/heap.c over Memory.Vmm. The Rust allocator is a parameter; the walk
--   over the pages of the heap takes fuel, more than there are pages.
-- * Kernel.Terminal models the VGA text screen of kernel.c. The video memory is a function from
--   the index of a cell to its 16 bits. Kernel.Console adds the serial line as the list of the
--   bytes sent, with `klog` and `kprintf`; Kernel.Panic is what `kernel_panic` shows.
-- * Kernel.Shell models the line editor and the commands of the shell of kernel.c: a round reads
--   a line from the list of the characters to come and runs it. Kernel.Syscall models syscall.c,
--   with the file system a parameter. Kernel.Boot models `detect_memory` of kernel.c and how
--   `kernel_main` sets up the frames, the paging, the heap, the timer and the keyboard. Kernel.Checks
--   models the self-tests of kernel.c and, in Kernel.Checks.Sequence, the order in which
--   `kernel_main` runs them. A run of them is undefined, halted by `kernel_panic`, or done; the
--   allocator, the file system and the self-tests of the Rust library are parameters, and so are
--   the counts that `timer_get_ticks` returns, a function from the number of the call. The wait
--   for the timer counts down its own limit of 500,000,000 rounds.
-- * Libk models lib/conv.c, lib/printf.c, lib/string.c and the character classes of lib/libk.h.
--   A source string is the list of its bytes before the NUL. `tmp[33]` in `utoa` is the room that
--   its loop counts down, so that running out of it would be the write past the array.
--   `kvsnprintf` is the loop over the format, written over the function that emits a character
--   (`putc_buf`); a `va_list` is a list of arguments. `none` stands for undefined behaviour
--   (signed overflow, a wrong or missing argument).
--
-- A `uint32_t` is a natural number with `% 2 ^ 32` at each operation that can wrap, an `int` that
-- can be negative its 32-bit pattern, a `char` its byte. Addresses and indices into memory do not
-- wrap.
--
-- Not modelled: the Rust static library (rust/, with the heap and the file system), which is a
-- parameter where the C code calls it; the assembly stubs and the inline assembly (the saved
-- interrupt flag, the halts, the load of the tables); the banners of `kernel_main`; and the idle
-- loop. Four things of the machine are simplified:
--
-- * Paging is not switched on in Memory.Vmm: page tables are reached at their physical addresses. The
--   program does so too while they lie in the first 8 MiB, which are mapped to themselves; it
--   faults on a table that lies higher, where the model goes on.
-- * The bitmap of Memory.Pmm is a memory of its own. In the program it stands in front of the code
--   and has room for 128 MiB; Kernel.Boot has `none` where the total is larger.
-- * `klog` takes the serial line as the list of its bytes and leaves out the wait of
--   `serial_putchar`; a theorem that says that a run ends brings in a UART and its waits.
-- * An interrupt of the timer arrives while the processor halts, one for each halt, and one answer
--   of the controller that is asked stands for its In-Service Register in a run of `irq_handler`.
pub mod Common
pub mod Memory
pub mod Process
pub mod Drivers
pub mod Interrupts
pub mod Libk
pub mod Kernel
