-- ===== src/Kernel/Checks/Tests.antt =====
-- The tests of the start at concrete addresses, over a small allocator and a small file system.
use munux.Common.{
  ℕ, ◌+◌, ◌-◌, ◌*◌, ◌/◌, ◌≤◌, ◌<◌, ◌≡◌, refl, ◌⊎◌, inl, some, List, [], ◌∷◌, ◌++◌, ◌&&◌, ltb, leb,
  All, get_or, if◌then◌else◌, arith,
}
use munux.Common.Text.{bytes_of}
use munux.Common.Memory.{Memory}
use munux.Libk.Conv.Digits.{IsDigitOf, value_of}
use munux.Memory.Heap.{Heap}
use munux.Drivers.Serial.{com1, serial_writestring}
use munux.Drivers.Serial.Uart.{Uart}
use munux.Drivers.Ports.{Bus}
use munux.Drivers.Disk.{disk_present}
use munux.Kernel.Panic.{kernel_panic}
use munux.Kernel.Console.{Console, klog, show, use_color, bytes_from, string_at}
use munux.Kernel.Syscall.{Registers, Machine, Vfs}
use munux.Kernel.Checks.{done, halted, Decides, spin_limit, libk_selfcheck, boot_selfcheck}
use munux.Kernel.Checks.Conversions.{libk_selfcheck_lem}
use munux.Kernel.Checks.Ticking.{advance_text, waiting_text, boot_selfcheck-serial_writestring}
use munux.Kernel.Checks.Smoke.{Arena, Allocator, rust_heap_smoke}
use munux.Kernel.Checks.Smoke.Accepts.{
  Serves as AllocatorServes, after_pair, after_merged, after_aligned, rust_heap_smoke_lem,
}
use munux.Kernel.Checks.Syscalls.{motd, syscall_selfcheck}
use munux.Kernel.Checks.Syscalls.Accepts.{Serves, served, syscall_selfcheck_lem}
use munux.Kernel.Checks.Sequence.{Places, Selftests, start_tests}
use munux.Kernel.Checks.Sequence.Shell.{Passes, logged, started, start_tests_lem}

abbrev blank : Memory
blank q = 0

abbrev dark : Console
dark = record { terminal = record { video = blank; row = 0; column = 0; color = 7 }; sent = [] }

libk_selfcheck_lem_example :
    (m' : Memory) × (libk_selfcheck 100 200 300 blank dark
      ≡ done (m', klog (bytes_of "[libk] string/conv/ctype/printf: OK\n") dark))
    × ((q : ℕ) → (q < 100) ⊎ (112 ≤ q) → (q < 200) ⊎ (264 ≤ q) → (q < 300) ⊎ (304 ≤ q) → m' q ≡ 0)
libk_selfcheck_lem_example = libk_selfcheck_lem 100 200 300 blank dark

-- A timer that counts up to 5 and stops.
abbrev five : ℕ → ℕ
five i = if ltb i 5 then i else 5

-- A line that is always free.
abbrev free_line : Bus (List ℕ)
free_line = record {
  inb = λ port d. (0x20, d);
  inw = λ port d. (0, d);
  outb = λ port v d. d ++ v ∷ [];
  outw = λ port v d. d;
}

abbrev free_uart : Uart free_line com1
free_uart = record {
  sent = λ d. d;
  delay = λ d. 0;
  poll_sent = λ d. refl;
  poll_delay = λ d. refl;
  poll_empty = λ d. refl;
  write_sent = λ c d free. refl;
}

boot_selfcheck-serial_writestring_example :
    ((k : ℕ) × (text : List ℕ) × (d' : List ℕ) × (k ≤ spin_limit + 2)
      × (0 < five k)
      × (value_of 10 text ≡ five k)
      × All (IsDigitOf 10) text
      × (boot_selfcheck five 100 blank dark ≡ done (klog (advance_text text) dark))
      × (serial_writestring free_line 1 com1 (advance_text text) [] ≡ some d')
      × (d' ≡ advance_text text))
    ⊎ ((d' : List ℕ) × ((n : ℕ) → n ≤ spin_limit + 2 → five n ≡ 0)
        × (boot_selfcheck five 100 blank dark
            ≡ halted (
                kernel_panic
                  (some (bytes_of "[chk] timer nao avancou: IRQ/PIC/sti falhou"))
                  (klog waiting_text dark).terminal))
        × (serial_writestring free_line 1 com1 waiting_text [] ≡ some d')
        × (d' ≡ waiting_text))
boot_selfcheck-serial_writestring_example =
    boot_selfcheck-serial_writestring five (λ i. ground arith) free_line free_uart 1 []
      (λ d. omega arith) (λ i. ground arith) 100 blank dark

-- An allocator that only goes up.
abbrev rising : Allocator ℕ
rising = record {
  alloc = λ size h. (h.rust.own, record h { rust = record h.rust { own = h.rust.own + size } });
  free = λ p h. h;
  alloc_aligned = λ size alignment h. (
    (h.rust.own / alignment + 1) * alignment,
    record h { rust = record h.rust { own = (h.rust.own / alignment + 2) * alignment } },
  );
  free_aligned = λ p h. h;
}

abbrev empty_heap : Heap (Arena ℕ)
empty_heap = record {
  heap_end = 0xc010_0000;
  heap_max_addr = 0xd000_0000;
  paging = record {
    memory = blank;
    current_directory = 0;
    kernel_directory = 0;
    frames = record { bitmap = blank; total_frames = 0; used_frames = 0 };
  };
  rust = record { bytes = blank; own = 0xc000_0000 };
}

rust_heap_smoke_lem_example :
    Decides
      (Heap (Arena ℕ) × Console)
      (AllocatorServes rising empty_heap)
      (
        after_aligned rising (after_merged rising (after_pair rising empty_heap)),
        show (bytes_of "[smoke] kmalloc/kfree/coalesce/aligned: OK (via munux_rs)\n") (
            use_color 10 0
              (show (bytes_of "[smoke] Testando heap Rust...\n") (use_color 11 0 dark))),
      )
      (rust_heap_smoke rising empty_heap dark)
rust_heap_smoke_lem_example = rust_heap_smoke_lem rising empty_heap dark

-- A file system of one file; its state counts the calls.
abbrev one_file : Vfs ℕ
one_file = record {
  vfs_open = λ path len m calls. (3, calls + 1);
  vfs_read = λ fd buf len m calls. (
    11,
    (λ q. if leb buf q && ltb q (buf + 11) then get_or motd (q - buf) 0 else m q),
    calls + 1,
  );
  vfs_close = λ fd calls. (0, calls + 1);
}

abbrev zeroed : Registers
zeroed = record {
  ds = 0;
  edi = 0;
  esi = 0;
  ebp = 0;
  esp = 0;
  ebx = 0;
  edx = 0;
  ecx = 0;
  eax = 0;
  int_no = 128;
  err_code = 0;
  eip = 0;
  cs = 0;
  eflags = 0;
  useresp = 0;
  ss = 0;
}

abbrev machine : Machine ℕ
machine = record { memory = blank; console = dark; ticks = 12; vfs = 0 }

syscall_selfcheck_lem_example :
    Decides
      (Machine ℕ)
      (Serves one_file 400 500 machine)
      (record (served one_file 400 500 machine) {
        console =
            klog
              (bytes_of "[sys] syscalls (int 0x80): OK\n")
              (klog (bytes_from blank 600 (27)) dark);
      })
      (syscall_selfcheck one_file zeroed 600 400 500 machine)
syscall_selfcheck_lem_example =
    syscall_selfcheck_lem one_file zeroed 600 400 500 machine (λ e. absurd (omega (arith, e)))

abbrev spots : Places
spots = record { digits = 50; buf = 100; sb = 200; tiny = 300; msg = 600; path = 400; rbuf = 500 }

abbrev passing : Selftests ℕ ℕ
passing = record {
  vfs_selftest = λ v. (0, v);
  vfs_init = λ v. 0;
  bcache_selftest = λ d. (0, d);
  ext2_selftest = λ d. (0, d);
}

-- No device: every port reads as 0.
abbrev nothing : Bus ℕ
nothing = record {
  inb = λ port d. (0, d);
  outb = λ port value d. d;
  inw = λ port d. (0, d);
  outw = λ port value d. d;
}

abbrev motd_path : Memory
motd_path q = get_or (bytes_of "/etc/motd") (q - 400) 0

start_tests_lem_example :
    (m' : Memory) × (text : List ℕ) × (said : List ℕ) × (e' : List ℕ) × All (IsDigitOf 10) text
    × ((q : ℕ)
        → (q < 100) ⊎ (112 ≤ q)
        → (q < 200) ⊎ (264 ≤ q)
        → (q < 300) ⊎ (304 ≤ q)
        → m' q ≡ motd_path q)
    × Decides
        (Machine ℕ × ℕ)
        (Passes one_file passing nothing five 5 spots 0 0 m' (logged text dark))
        (started one_file passing nothing 5 spots 0 0 m' (logged text dark))
        (start_tests one_file passing nothing five 5 zeroed spots 0 0 motd_path dark)
    × ((started one_file passing nothing 5 spots 0 0 m' (logged text dark)).0.console
        ≡ klog said dark)
    × (serial_writestring free_line 1 com1 said [] ≡ some e')
    × (e' ≡ said)
start_tests_lem_example =
    start_tests_lem one_file passing nothing free_line free_uart 1 [] five 5 zeroed spots 0 0
      motd_path dark (λ e. omega arith) (λ i. ground arith) (λ i. ground arith)
      (λ e. absurd (omega (arith, e)))

-- All the tests pass on this machine, so the start comes to the shell.
all_pass : (m : Memory) (s : Console) → Passes one_file passing nothing five 5 spots 0 0 m s
all_pass m s = (
  (5, omega arith, omega arith),
  refl,
  (omega arith, omega arith, omega arith, omega arith, unfold string_at in refl, refl),
  inl (unfold disk_present in refl),
)
