-- ===== src/Kernel/Boot.antt =====
-- The start of munux-os/kernel/kernel.c: how much memory there is, and the frames and the paging
-- that `kernel_main` sets up over it. The information of the boot loader is a function from the
-- index of a word to the word; `buf` and `m` are where the array of `klog_uint` stands.
pub mod Detect
pub mod Frames
pub mod Paging
pub mod HeapStart
pub mod Interrupts
mod Tests
use munux.Common.{
  ◌>>=◌, ℕ, ◌+◌, ◌*◌, ◌/◌, Option, none, some, List, [], ◌∷◌, ◌++◌, not, ◌||◌, bit_and, ◌==◌, ltb,
  if◌then◌else◌,
}
use munux.Common.Text.{bytes_of}
use munux.Common.Word.{add32, mul32}
use munux.Common.Memory.{Memory}
use munux.Libk.Conv.{utoa}
use munux.Kernel.Console.{Console, show, klog, string_at}
use munux.Memory.Pmm.{Pmm, init}
use munux.Memory.Vmm
use munux.Memory.Vmm.{Vmm}
use munux.Memory.Heap.{Heap, heap_init}

-- `klog_uint`
pub klog_uint : (buf v : ℕ) → Memory → Console → Option Console
klog_uint buf v m s =
    utoa v buf 10 m >>= λ written. string_at 12 buf written >>= λ text. some (klog text s)

abbrev pub multiboot_bootloader_magic : ℕ
multiboot_bootloader_magic = 0x2bad_b002

abbrev pub mem_fallback_bytes : ℕ
mem_fallback_bytes = 32 * 1024 * 1024

-- The dash is three bytes of UTF-8.
abbrev pub no_multiboot_text : List ℕ
no_multiboot_text =
    bytes_of "[mem] Sem multiboot valido " ++ 0xe2 ∷ 0x80 ∷ 0x94 ∷ bytes_of " fallback de 32 MiB\n"

abbrev pub no_meminfo_text : List ℕ
no_meminfo_text =
    bytes_of "[mem] multiboot sem meminfo " ++ 0xe2 ∷ 0x80 ∷ 0x94 ∷ bytes_of " fallback de 32 MiB\n"

-- The total that the boot loader reports, not below the fallback.
pub reported : ℕ → ℕ
reported mem_upper =
    let total = add32 0x10_0000 (mul32 mem_upper 1024) in
    if ltb total mem_fallback_bytes then mem_fallback_bytes else total

-- `detect_memory`
pub detect_memory :
    (magic mb_info_addr : ℕ) (mbi : Memory) (buf : ℕ) → Memory → Console → Option (ℕ × Console)
detect_memory magic mb_info_addr mbi buf m s =
    let total = reported (mbi 2) in
    let found =
      klog_uint buf (total / (1024 * 1024)) m (klog (bytes_of "[mem] Detectado via multiboot: ") s)
      >>= λ r. some (total, klog (bytes_of " MiB\n") r) in
    if not (magic == multiboot_bootloader_magic) || mb_info_addr == 0
    then some (mem_fallback_bytes, klog no_multiboot_text s)
    else if bit_and (mbi 0) 1 == 0
    then some (mem_fallback_bytes, klog no_meminfo_text s)
    else found

-- `kernel_main`, where it sets up the frame allocator; `bitmap` is what stands at the bitmap. The
-- bitmap has the 4096 bytes in front of the code of the kernel, a bit for each page of 128 MiB: with
-- more memory `pmm_init` overwrites the code, here `none`.
pub boot_pmm :
    (magic mb_info_addr : ℕ) (mbi : Memory) (buf : ℕ)
    → (bitmap m : Memory) → Console
    → Option (Pmm × Console)
boot_pmm magic mb_info_addr mbi buf bitmap m s =
    detect_memory magic mb_info_addr mbi buf m s >>= λ found.
    if ltb 0x800_0000 found.0
    then none
    else some (init found.0 bitmap, show (bytes_of "[OK] Inicializando PMM...\n") found.1)

-- `kernel_main`, up to the start of paging; `memory` is the memory of 32-bit words.
pub boot_vmm :
    (magic mb_info_addr : ℕ) (mbi : Memory) (buf : ℕ)
    → (bitmap memory m : Memory) → Console
    → Option (Vmm × Console)
boot_vmm magic mb_info_addr mbi buf bitmap memory m s =
    boot_pmm magic mb_info_addr mbi buf bitmap m s >>= λ started. some (
      Vmm.init (record {
        memory = memory;
        current_directory = 0;
        kernel_directory = 0;
        frames = started.0;
      }),
      show (bytes_of "[OK] Inicializando VMM + paginacao...\n") started.1,
    )

-- `kernel_main`, up to the heap; `rust` is the state of the Rust allocator, and `rs_heap_init` what
-- `munux_rs_heap_init` does to it.
pub boot_heap {ℓ} :
    {R : Type ℓ} (fuel : ℕ)
    → (rs_heap_init : (start initial max : ℕ) → R → R) → R
    → (magic mb_info_addr : ℕ) (mbi : Memory) (buf : ℕ) → (bitmap memory m : Memory) → Console
    → Option (Heap R × Console)
boot_heap fuel rs_heap_init rust magic mb_info_addr mbi buf bitmap memory m s =
    boot_vmm magic mb_info_addr mbi buf bitmap memory m s >>= λ started.
    heap_init fuel rs_heap_init
      (record { heap_end = 0; heap_max_addr = 0; paging = started.0; rust = rust })
    >>= λ h. some (h, show (bytes_of "[OK] Inicializando heap (backend: Rust)...\n") started.1)
