-- ===== src/Kernel/Boot/Detect.antt =====
-- The memory that the start finds is enough for the frame allocator.
use munux.Common.{
  ℕ, zero, suc, ◌+◌, ◌-◌, ◌*◌, ◌/◌, ◌%◌, ◌^◌, ◌≤◌, ◌<◌, ◌≡◌, ◌≢◌, refl, inl, inr, some, List, [],
  ◌∷◌, not, ◌||◌, bit_and, ◌==◌, leb, length, get_or, All, arith, Bool-cases,
}
use munux.Common.Text.{bytes_of}
use munux.Common.Memory.{Memory}
use munux.Libk.Conv.{utoa, digits, store_text}
use munux.Libk.Conv.Digits.{IsDigitOf, NoLeadingZero, digit_value, value_from, value_of}
use munux.Libk.Conv.Text.{Holds, store_text-Holds, utoa_lem}
use munux.Libk.Conv.Roundtrip.{decimal}
use munux.Kernel.Console.{Console, klog, string_at, string_at_text}
use munux.Kernel.Boot.{
  klog_uint, reported, detect_memory, multiboot_bootloader_magic, mem_fallback_bytes,
  no_multiboot_text, no_meminfo_text,
}

-- `acc` with `n` zeros behind it.
scale : (n acc : ℕ) → ℕ
scale zero acc = acc
scale (suc n) acc = scale n (acc * 10)

scale_mono : (n a b : ℕ) → a ≤ b → scale n a ≤ scale n b
unfolding scale
scale_mono zero a b h = h
scale_mono (suc n) a b h = scale_mono n (a * 10) (b * 10) (omega arith)

scale_grows : (j n a : ℕ) → scale n a ≤ scale (j + n) a
unfolding scale
scale_grows zero n a = let e : 0 + n ≡ n = omega arith in rw e (omega arith)
scale_grows (suc j) n a =
    let e : suc j + n ≡ suc (j + n) = omega arith in
    rw e (omega (arith, scale_grows j n a, scale_mono (j + n) a (a * 10) (omega arith)))

value_from-scale : (text : List ℕ) (acc : ℕ) → scale (length text) acc ≤ value_from 10 acc text
unfolding scale value_from
value_from-scale [] acc = omega arith
value_from-scale (c ∷ rest) acc = omega (
  arith,
  scale_mono (length rest) (acc * 10) (acc * 10 + digit_value c) (omega arith),
  value_from-scale rest (acc * 10 + digit_value c),
)

-- A number of 32 bits has at most ten digits.
ten_digits :
    (text : List ℕ)
    → All (IsDigitOf 10) text
    → NoLeadingZero text
    → value_of 10 text < 2 ^ 32
    → length text ≤ 10
unfolding value_of value_from scale
ten_digits [] all first small = omega arith
ten_digits (c ∷ rest) (one, all) first small =
    let (_, value, low, _) = decimal c one in
    let start : 0 * 10 + digit_value c ≡ digit_value c = omega arith in
    let bound : value_from 10 (digit_value c) rest < 2 ^ 32 = rw start at small in
    elim (Bool-cases (leb 10 (length rest))) [
      | inl long ↦
          let same : length rest - 10 + 10 ≡ length rest = ground arith in
          let many = scale_grows (length rest - 10) 10 1 in
          let least = value_from-scale rest (digit_value c) in
          let up = scale_mono (length rest) 1 (digit_value c) (omega (arith, value)) in
          let enough : scale 10 1 ≤ scale (length rest) 1 = rw same at many in
          absurd (omega (arith, enough, least, up))
      | inr short ↦ ground arith
    ]

pub not_nul : (text : List ℕ) → All (IsDigitOf 10) text → All (λ c. c ≢ 0) text
not_nul [] all = tt
not_nul (c ∷ rest) (one, all) =
    let (_, _, low, _) = decimal c one in (omega arith, not_nul rest all)

string_at-Holds :
    (text : List ℕ) (buf : ℕ) (m m' : Memory)
    → Holds m' m buf text
    → All (IsDigitOf 10) text
    → length text ≤ 10
    → string_at 12 buf m' ≡ some text
string_at-Holds text buf m m' holds all short =
    string_at_text text 12 buf m'
      (λ k l.
        let e : buf + k - buf ≡ k = omega arith in
        let byte : m' (buf + k) ≡ get_or text (buf + k - buf) 0 = ground (arith, holds (buf + k)) in
        rw e at byte)
      (ground (arith, holds (buf + length text))) (not_nul text all) (omega arith)

decimal_digits :
    (v buf : ℕ) (m : Memory)
    → v < 2 ^ 32
    → (m' : Memory) × (text : List ℕ) × (utoa v buf 10 m ≡ some m')
      × Holds m' m buf text
      × (value_of 10 text ≡ v)
      × All (IsDigitOf 10) text
      × (length text ≤ 10)
unfolding utoa digits value_of value_from digit_value
decimal_digits v buf m small = elim (Bool-cases (v == 0)) [
  | inl none_left ↦
      let e : v ≡ 0 = ground arith in
      rw e (
        store_text (b'0' ∷ []) buf m,
        b'0' ∷ [],
        refl,
        store_text-Holds (b'0' ∷ []) buf m,
        refl,
        ((0, omega arith, refl), tt),
        omega arith,
      )
  | inr more ↦
      let (m', text, e, holds, _, (value, all, _, first)) = utoa_lem v buf 10 m small in
      (
        m',
        text,
        e,
        holds,
        value,
        all,
        ten_digits text all (first (ground arith)) (omega (arith, value)),
      )
]

-- `klog_uint` logs the decimal digits of a number of 32 bits, and they fit in its 12 bytes.
pub klog_uint_lem :
    (buf v : ℕ) (m : Memory) (s : Console)
    → v < 2 ^ 32
    → (text : List ℕ) × (klog_uint buf v m s ≡ some (klog text s))
      × (value_of 10 text ≡ v)
      × All (IsDigitOf 10) text
      × (length text < 12)
unfolding klog_uint
klog_uint_lem buf v m s small =
    let (m', text, e, holds, value, all, short) = decimal_digits v buf m small in
    (text, rw (e, string_at-Holds text buf m m' holds all short) refl, value, all, omega arith)

-- The memory that the start reports to the frame allocator.
pub detect_memory_lem :
    (magic mb_info_addr : ℕ) (mbi : Memory) (buf : ℕ) (m : Memory) (s : Console)
    → (total : ℕ) × (s' : Console) × (detect_memory magic mb_info_addr mbi buf m s
        ≡ some (total, s'))
      × (mem_fallback_bytes ≤ total)
      × (total < 2 ^ 32)
      × (total ≢ mem_fallback_bytes
          → (magic ≡ multiboot_bootloader_magic)
            × (mb_info_addr ≢ 0)
            × (bit_and (mbi 0) 1 ≢ 0)
            × (total ≡ (0x10_0000 + mbi 2 * 1024) % 2 ^ 32))
unfolding detect_memory reported
detect_memory_lem magic mb_info_addr mbi buf m s =
    let total = reported (mbi 2) in
    let small : reported (mbi 2) < 2 ^ 32 = ground arith in
    let (text, e, _, _, _) =
      klog_uint_lem buf (total / (1024 * 1024)) m
        (klog (bytes_of "[mem] Detectado via multiboot: ") s) (omega arith) in
    elim (Bool-cases (not (magic == multiboot_bootloader_magic) || mb_info_addr == 0)) [
      | inl out ↦ (
        mem_fallback_bytes,
        klog no_multiboot_text s,
        rw out refl,
        omega arith,
        omega arith,
        λ ne. absurd (ne refl),
      )
      | inr inside ↦ elim (Bool-cases (bit_and (mbi 0) 1 == 0)) [
        | inl lacking ↦ (
          mem_fallback_bytes,
          klog no_meminfo_text s,
          rw (inside, lacking) refl,
          omega arith,
          omega arith,
          λ ne. absurd (ne refl),
        )
        | inr given ↦ (
          total,
          klog (bytes_of " MiB\n")
              (klog text (klog (bytes_of "[mem] Detectado via multiboot: ") s)),
          rw (inside, given, e) refl,
          ground arith,
          small,
          λ ne. (ground arith, ground arith, ground arith, ground arith),
        )
      ]
    ]
