-- ===== src/Kernel/Boot/Tests.antt =====
-- The start at concrete words of a boot loader.
use munux.Common.{
  ◌⊎◌, ◌/◌, ◌%◌, ◌≢◌, ◌+◌, ltb, if◌then◌else◌, ◌<◌, ◌≤◌, ◌≡◌, refl, some, [], arith, ◌==◌, ℕ, ◌^◌,
  ◌∷◌, false, true,
}
use munux.Interrupts.Idt.{Idt, irq_handler}
use munux.Interrupts.Idt.Dispatch.{calls}
use munux.Drivers.Ports.{Bus}
use munux.Drivers.Keyboard.{Keyboard}
use munux.Kernel.Boot.Interrupts.{Started, start_drivers, start_drivers_lem}
use munux.Common.Memory.{Memory}
use munux.Kernel.Console.{Console}
use munux.Memory.Vmm.{get_physical_address}
use munux.Memory.Vmm.Invariant.{IsPaged}
use munux.Memory.Heap.{Heap}
use munux.Kernel.Boot.HeapStart.{InHeap, boot_heap_lem}
use munux.Kernel.Boot.{boot_heap, reported, mem_fallback_bytes}

abbrev blank : Memory
blank q = 0

abbrev dark : Console
dark = record { terminal = record { video = blank; row = 0; column = 0; color = 7 }; sent = [] }

-- 127 MiB above the first.
abbrev loader : Memory
loader q = if q == 0 then 1 else 130048

reported_all : reported 130048 ≡ 0x800_0000
unfolding reported
reported_all = refl

-- With 4 GiB the sum wraps, and the fallback is what is left.
reported_wraps : reported 4193280 ≡ mem_fallback_bytes
unfolding reported
reported_wraps = refl

boot_heap_lem_example :
    (h : Heap ℕ) × (s' : Console) × (boot_heap 257
        (λ start initial max r. r + 1)
        0
        0x2bad_b002
        64
        loader
        0
        blank
        blank
        blank
        dark
      ≡ some (h, s'))
    × (h.heap_end ≡ 0xc010_0000)
    × (h.heap_max_addr ≡ 0xd000_0000)
    × IsPaged h.paging
    × ((w : ℕ)
        → w < 2 ^ 32
        → InHeap w
        → (0x20_0000 ≤ get_physical_address w h.paging)
          × (get_physical_address w h.paging % 4096 ≡ w % 4096))
    × ((v w : ℕ)
        → v < 2 ^ 32
        → w < 2 ^ 32
        → InHeap v
        → InHeap w
        → v / 4096 < w / 4096
        → get_physical_address v h.paging / 4096 ≢ get_physical_address w h.paging / 4096)
    × ((w : ℕ)
        → w < 2 ^ 32
        → (w < 0xc000_0000) ⊎ (0xc010_0000 ≤ w)
        → get_physical_address w h.paging ≡ (if ltb w 0x80_0000 then w else 0))
boot_heap_lem_example =
    boot_heap_lem 257 (λ start initial max r. r + 1) 0 0x2bad_b002 64 loader 0 blank blank blank
      dark (λ w. omega arith) (omega arith) (omega arith)

-- A table with no handler.
abbrev no_handlers : Idt
no_handlers = record {
  entries = λ v. record { base_low = 0; selector = 0; always0 = 0; flags = 0; base_high = 0 };
  handlers = blank;
}

abbrev keys : Keyboard
keys = record {
  buffer = blank;
  read_pos = 3;
  write_pos = 7;
  shift = true;
  ctrl = false;
  alt = false;
  caps = false;
  num = false;
  scroll = false;
  extended = false;
}

-- A device that is the number it was last sent.
abbrev last_sent : Bus ℕ
last_sent = record {
  inb = λ port d. (d, d);
  inw = λ port d. (d, d);
  outb = λ port value d. value;
  outw = λ port value d. value;
}

start_drivers_lem_example :
    (b : Started ℕ) × (start_drivers last_sent 0x1000 0x2000 no_handlers keys 0 dark ≡ some b)
    × ((irq in_service : ℕ)
        → calls (irq_handler b.table irq in_service)
          ≡ (if irq == 32 then 0x1000 ∷ [] else if irq == 33 then 0x2000 ∷ [] else []))
    × (b.ticks ≡ 0)
    × (b.keyboard.read_pos ≡ b.keyboard.write_pos)
    × (b.device ≡ 0x2e)
start_drivers_lem_example =
    start_drivers_lem last_sent 0x1000 0x2000 no_handlers keys 0 dark (λ v. refl)
      (λ e. absurd (omega (arith, e))) (λ e. absurd (omega (arith, e)))
