-- ===== src/Kernel/Checks.antt =====
-- The tests of munux-os/kernel/kernel.c that the start runs on the kernel itself, each of which ends
-- in `kernel_panic` or goes on. The strings of their literals are lists of bytes.

pub mod Text
pub mod Conversions
pub mod Ticking
pub mod Smoke
pub mod Syscalls
pub mod Sequence
mod Tests
use munux.Common.{
  ℕ, zero, suc, ◌+◌, ◌-◌, ◌^◌, Bool, Option, none, some, List, [], ◌∷◌, ◌≡◌, ◌⊎◌, not, ◌||◌, ◌==◌,
  ltb, if◌then◌else◌,
}
use munux.Common.Text.{bytes_of}
use munux.Common.Memory.{Memory}
use munux.Common.Int.{is_zero}
use munux.Libk.Ctype.{is_digit, to_upper, to_lower}
use munux.Libk.Conv.{utoa, itoa, atoi}
use munux.Libk.Strings.{strcmp, strncmp}
use munux.Libk.Printf.{Arg, word, string, kvsnprintf}
use munux.Kernel.Terminal.{Terminal}
use munux.Kernel.Panic.{kernel_panic}
use munux.Kernel.Console.{Console, klog, string_at}
use munux.Kernel.Boot.{klog_uint}

-- A run: undefined behaviour, the screen on which the kernel halts, or a result.
pub data Run (A : Type 0) : Type 0 where
  undefined : Run A
  halted : Terminal → Run A
  done : A → Run A

infixl 5 ◌>>=◌
abbrev pub ◌>>=◌ : {A B : Type 0} → Run A → (A → Run B) → Run B
undefined >>= f = undefined
halted t >>= f = halted t
done a >>= f = f a

abbrev pub or_undefined : {A : Type 0} → Option A → Run A
or_undefined none = undefined
or_undefined (some a) = done a

-- The run goes on with `a` and `P` holds, or it halts and `P` does not.
abbrev pub Decides : (A : Type 0) (P : Type 0) → A → Run A → Type 0
Decides A P a run = (P × (run ≡ done a)) ⊎ (¬ P × ((t : Terminal) × (run ≡ halted t)))

-- `if (bad) kernel_panic(msg);`
abbrev pub panic_if : Bool → (msg : List ℕ) → Terminal → Run Unit
panic_if bad msg t = if bad then halted (kernel_panic (some msg) t) else done tt

-- `strcmp(a, b) == 0`
abbrev pub same : (a b : List ℕ) → Bool
same a b = is_zero (strcmp a b)

-- `if (strcmp(p, expected) != 0) kernel_panic(msg);` for the array of `size` bytes at `p`.
abbrev pub expect : (size p : ℕ) → (expected msg : List ℕ) → Memory → Terminal → Run Unit
expect size p expected msg m t = do
  text ← or_undefined (string_at size p m)
  panic_if (not (same text expected)) msg t

abbrev pub number_msg : List ℕ
number_msg = bytes_of "[libk] utoa/itoa incorreto"

-- The three conversions, each tested at once.
pub check_numbers : (buf : ℕ) → Memory → Terminal → Run Memory
check_numbers buf m t = do
  m1 ← or_undefined (utoa 0 buf 10 m)
  first ← expect 12 buf (bytes_of "0") number_msg m1 t
  m2 ← or_undefined (utoa 305419896 buf 16 m1)
  second ← expect 12 buf (bytes_of "12345678") number_msg m2 t
  m3 ← or_undefined (itoa (2 ^ 32 - 42) buf 10 m2)
  third ← expect 12 buf (bytes_of "-42") number_msg m3 t
  done m3

-- `atoi` and the classes of characters.
pub check_classes : Terminal → Run Unit
check_classes t = do
  value ← or_undefined (atoi (bytes_of "  -123"))
  panic_if
      (not (value == 2 ^ 32 - 123)
        || (not (is_digit b'7')
            || (is_digit b'x' || (not (to_upper b'a' == b'A') || not (to_lower b'Z' == b'z')))))
      (bytes_of "[libk] atoi/ctype incorreto") t

abbrev pub line_format : List ℕ
line_format = bytes_of "%d %u %x %s %c %%"

abbrev pub line_args : List Arg
line_args = word (2 ^ 32 - 5) ∷ word 7 ∷ word 255 ∷ string (some (bytes_of "ok")) ∷ word b'A' ∷ []

-- `ksnprintf` into the arrays `sb` and `tiny`.
pub check_format : (sb tiny : ℕ) → Memory → Terminal → Run Memory
check_format sb tiny m t = do
  line ← or_undefined (kvsnprintf sb 64 line_format line_args m)
  first ←
      expect 64 sb (bytes_of "-5 7 ff ok A %") (bytes_of "[libk] ksnprintf incorreto") (line.0) t
  padded ← or_undefined (kvsnprintf sb 64 (bytes_of "[%08x]") (word 0x1234 ∷ []) (line.0))
  second ←
      expect 64 sb (bytes_of "[00001234]") (bytes_of "[libk] ksnprintf pad incorreto") (padded.0) t
  cut ← or_undefined (kvsnprintf tiny 4 (bytes_of "abcdef") [] (padded.0))
  long ← panic_if (not (cut.1 == 6)) (bytes_of "[libk] ksnprintf bounds incorreto") t
  third ← expect 4 tiny (bytes_of "abc") (bytes_of "[libk] ksnprintf bounds incorreto") (cut.0) t
  done (cut.0)

-- `libk_selfcheck`, with its arrays at `buf`, `sb` and `tiny`.
pub libk_selfcheck : (buf sb tiny : ℕ) → Memory → Console → Run (Memory × Console)
libk_selfcheck buf sb tiny m s = do
  equal ←
      panic_if
        (not (same (bytes_of "abc") (bytes_of "abc")) || same (bytes_of "abc") (bytes_of "abd"))
        (bytes_of "[libk] strcmp incorreto") s.terminal
  prefix ←
      panic_if (not (is_zero (strncmp (bytes_of "echo x") (bytes_of "echo ") 5)))
        (bytes_of "[libk] strncmp incorreto") s.terminal
  numbers ← check_numbers buf m s.terminal
  classes ← check_classes s.terminal
  written ← check_format sb tiny numbers s.terminal
  done (written, klog (bytes_of "[libk] string/conv/ctype/printf: OK\n") s)

-- The loop of `boot_selfcheck`: `ticks i` is what the call of `timer_get_ticks` numbered `i` returns,
-- and `left` the rounds up to the limit. The result is the number of the call behind the loop.
pub wait_tick : (left : ℕ) → (ticks : ℕ → ℕ) → (t0 i : ℕ) → ℕ
wait_tick zero ticks t0 i = i + 1
wait_tick (suc left) ticks t0 i =
    let later = wait_tick left ticks t0 (i + 1) in if ticks i == t0 then later else i + 1

abbrev pub spin_limit : ℕ
spin_limit = 500000000

-- `boot_selfcheck`; `buf` and `m` are for `klog_uint`.
pub boot_selfcheck : (ticks : ℕ → ℕ) (buf : ℕ) → Memory → Console → Run Console
boot_selfcheck ticks buf m s =
    let waiting = klog (bytes_of "[chk] Aguardando IRQ0 (timer) apos sti...\n") s in
    let t1 = ticks (wait_tick spin_limit ticks (ticks 0) 1) in
    let advanced = do
      told ←
          or_undefined
            (klog_uint buf t1 m (klog (bytes_of "[chk] IRQ0 OK: timer avancou para ") waiting))
      done (klog (bytes_of " tick(s) via interrupcao.\n") told)
    in if ltb (ticks 0) t1
      then advanced
      else halted (
          kernel_panic (some (bytes_of "[chk] timer nao avancou: IRQ/PIC/sti falhou"))
            waiting.terminal)
