-- ===== src/Kernel/Console.antt =====
-- The log of munux-os/kernel/kernel.c, on the screen and on COM1. The serial line is the list of
-- the bytes sent so far: the wait of `serial_putchar` for the port is in Drivers.Serial.
use mathlib.Core.List.{append-nil, append_assoc}
use munux.Common.{
  ◌>>=◌, ℕ, zero, suc, ◌+◌, Option, none, some, List, [], ◌∷◌, ◌++◌, ◌==◌, if◌then◌else◌, ◌≡◌, ◌≢◌,
  ◌<◌, refl, sym, inl, inr, Bool-cases, false, All, length, get_or, arith,
}
use munux.Common.Memory.{Memory}
use munux.Kernel.Terminal.{Terminal, setcolor, putchar, write, vga_entry_color}
use munux.Libk.Printf.{Arg, kvsnprintf}

pub record Console : Type 0 where
  pub terminal : Terminal
  pub sent : List ℕ

-- `terminal_putchar(c); serial_putchar(COM1, c)`
abbrev pub put_both : ℕ → Console → Console
put_both c s = record { terminal = putchar c s.terminal; sent = s.sent ++ c ∷ [] }

-- `terminal_writestring`
abbrev pub show : List ℕ → Console → Console
show text s = record s { terminal = write text s.terminal }

-- `terminal_setcolor(vga_entry_color(fg, bg))`
abbrev pub use_color : (fg bg : ℕ) → Console → Console
use_color fg bg s = record s { terminal = setcolor (vga_entry_color fg bg) s.terminal }

-- `klog`
abbrev pub klog : List ℕ → Console → Console
klog text s = record { terminal = write text s.terminal; sent = s.sent ++ text }

-- The string that stands at `p`; `none` if no NUL follows within the fuel.
unfoldable pub string_at : (fuel p : ℕ) → Memory → Option (List ℕ)
string_at zero p m = none
string_at (suc n) p m =
    let later = string_at n (p + 1) m in
    if m p == 0 then some [] else elim later [ none ↦ none | some text ↦ some (m p ∷ text) ]

write-append : (a b : List ℕ) (t : Terminal) → write (a ++ b) t ≡ write b (write a t)
unfolding write
write-append [] b t = refl
write-append (c ∷ a) b t = write-append a b (putchar c t)

-- Two texts are logged as one.
pub klog-append : (a b : List ℕ) (s : Console) → klog b (klog a s) ≡ klog (a ++ b) s
klog-append a b s =
    λ i. record { terminal = sym (write-append a b s.terminal) i; sent = append_assoc s.sent a b i }

pub klog_nothing : (s : Console) → s ≡ klog [] s
unfolding write
klog_nothing s = λ i. record s { sent = sym (append-nil s.sent) i }

-- A NUL within the fuel ends it.
pub string_at_ends :
    (n fuel p : ℕ) (m : Memory)
    → m (p + n) ≡ 0
    → n < fuel
    → (text : List ℕ) × (string_at fuel p m ≡ some text) × All (λ c. c ≢ 0) text
unfolding string_at
string_at_ends n zero p m z h = absurd (omega arith)
string_at_ends zero (suc fuel) p m z h =
    let e : p + 0 ≡ p = omega arith in let end : m p ≡ 0 = rw e at z in ([], rw end refl, tt)
string_at_ends (suc n) (suc fuel) p m z h =
    let next : p + suc n ≡ p + 1 + n = omega arith in
    let (rest, e, filled) = string_at_ends n fuel (p + 1) m (rw next at z) (omega arith) in
    elim (Bool-cases (m p == 0)) [
      | inl end ↦ ([], rw end refl, tt)
      | inr more ↦ (m p ∷ rest, rw (more, e) refl, (ground (arith, more), filled))
    ]

abbrev pub bytes_from : Memory → (p n : ℕ) → List ℕ
bytes_from m p zero = []
bytes_from m p (suc n) = m p ∷ bytes_from m (p + 1) n

pub string_at_bytes :
    (n fuel p : ℕ) (m : Memory)
    → All (λ c. c ≢ 0) (bytes_from m p n)
    → m (p + n) ≡ 0
    → n < fuel
    → string_at fuel p m ≡ some (bytes_from m p n)
unfolding string_at
string_at_bytes n zero p m t z h = elim h [ ]
string_at_bytes zero (suc fuel) p m t z h =
    let e : p + 0 ≡ p = omega arith in let end : m p ≡ 0 = rw e at z in rw end refl
string_at_bytes (suc n) (suc fuel) p m t z h =
    let next : p + suc n ≡ p + 1 + n = omega arith in
    let rest = string_at_bytes n fuel (p + 1) m t.1 (rw next at z) (omega arith) in
    let more : (m p == 0) ≡ false = ground arith in rw (more, rest) refl

bytes_from-text :
    (text : List ℕ) (p : ℕ) (m : Memory)
    → ((k : ℕ) → k < length text → m (p + k) ≡ get_or text k 0)
    → bytes_from m p (length text) ≡ text
bytes_from-text [] p m h = refl
bytes_from-text (c ∷ rest) p m h =
    let here : m p ≡ c = let e : p + 0 ≡ p = omega arith in rw e at (h 0 (omega arith)) in
    let later =
      bytes_from-text rest (p + 1) m
        (λ k l. let e : p + suc k ≡ p + 1 + k = omega arith in rw e at (h (suc k) (omega arith))) in
    rw (here, later) refl

-- A text without a NUL, byte by byte, with a NUL behind it.
pub string_at_text :
    (text : List ℕ) (fuel p : ℕ) (m : Memory)
    → ((k : ℕ) → k < length text → m (p + k) ≡ get_or text k 0)
    → m (p + length text) ≡ 0
    → All (λ c. c ≢ 0) text
    → length text < fuel
    → string_at fuel p m ≡ some text
string_at_text text fuel p m bytes ends filled short =
    let same = bytes_from-text text p m bytes in
    rw same at (string_at_bytes (length text) fuel p m (rw same filled) ends short)

-- The end of `kprintf`: the log of what stands in its 256 bytes.
abbrev pub log_buffer : (buf : ℕ) → Console → Option (Memory × ℕ) → Option Console
log_buffer buf s none = none
log_buffer buf s (some (m, _)) = string_at 256 buf m >>= λ text. some (klog text s)

-- `kprintf`, with its buffer at `buf`.
unfoldable pub kprintf : (buf : ℕ) → List ℕ → List Arg → Memory → Console → Option Console
kprintf buf fmt args m s = log_buffer buf s (kvsnprintf buf 256 fmt args m)
