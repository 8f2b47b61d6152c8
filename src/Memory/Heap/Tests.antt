-- ===== src/Memory/Heap/Tests.antt =====
-- The theorems on the growth of the heap at concrete states.
use munux.Common.{ℕ, ◌<◌, ◌≡◌, some, arith}
use munux.Memory.Heap.{Heap, munux_c_heap_grow}
use munux.Memory.Heap.Grow.{heap_grow-wraps}

-- The heap as `heap_init` leaves it, over tables that map nothing.
abbrev heap : Heap ℕ
heap = record {
  heap_end = 0xc010_0000;
  heap_max_addr = 0xd000_0000;
  paging = record {
    memory = λ q. 0;
    current_directory = 0x30_0000;
    kernel_directory = 0x30_0000;
    frames = record { bitmap = λ w. 0; total_frames = 4096; used_frames = 0 };
  };
  rust = 0;
}

heap_grow-wraps_example :
    (munux_c_heap_grow 1 0x4000_0000 heap ≡ some (0x10_0000, record heap { heap_end = 0x10_0000 }))
    × (◌<◌ 0 0x10_0000)
    × (◌<◌ 0x10_0000 0xc010_0000)
heap_grow-wraps_example =
    heap_grow-wraps 1 0x4000_0000 heap (omega arith) (omega arith) (omega arith) (omega arith)
      (omega arith)
