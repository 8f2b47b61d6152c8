-- ===== src/Kernel/Checks/Syscalls/Accepts.antt =====
-- What `syscall_selfcheck` finds out about the file system.
use munux.Common.{
  ℕ, ◌+◌, ◌^◌, ◌≤◌, ◌<◌, ◌≡◌, ◌≢◌, refl, sym, ◌∙◌, ap, ◌⊎◌, inl, inr, true, false, some, List, ◌||◌,
  ◌==◌, ltb, leb, length, Bool-cases, arith,
}
use munux.Common.Int.{is_zero_iff}
use munux.Common.Text.{bytes_of}
use munux.Common.Word.{u32_max}
use munux.Common.Memory.{update, update_self}
use munux.Libk.Strings.{strcmp}
use munux.Libk.Strings.Order.{IsText, strcmp_iff}
use munux.Kernel.Panic.{kernel_panic}
use munux.Kernel.Console.{klog, bytes_from, string_at, string_at_ends}
use munux.Kernel.Syscall.{Registers, Machine, Vfs}
use munux.Kernel.Syscall.Dispatch.{syscall_handler_lem}
use munux.Kernel.Checks.{done, Decides, same}
use munux.Kernel.Checks.Syscalls.{
  message, motd, do_syscall, check_calls, check_file, syscall_selfcheck,
}

-- Two strings without a NUL: either they are the same one, and `strcmp` says so, or not.
same_cases :
    (xs ys : List ℕ)
    → IsText xs
    → IsText ys
    → ((xs ≡ ys) × (same xs ys ≡ true)) ⊎ ((xs ≢ ys) × (same xs ys ≡ false))
same_cases xs ys tx ty =
    let zero_iff = is_zero_iff (strcmp xs ys) in
    let equal_iff = strcmp_iff xs ys tx ty in
    elim (Bool-cases (same xs ys)) [
      | inl yes_same ↦ inl (equal_iff.0 (zero_iff.0 yes_same), yes_same)
      | inr differs ↦ inr (λ e. let agrees = zero_iff.1 (equal_iff.1 e) in absurd (cc), differs)
    ]

module _ {V : Type 0} (rust : Vfs V) where
  -- What the file system has to do with the calls of the test: give a descriptor that is no standard
  -- one, read from 1 to 31 bytes, which make the text up to a NUL, and close.
  abbrev pub Serves : (path rbuf : ℕ) → Machine V → Type 0
  Serves path rbuf s =
      let opened = rust.vfs_open path 9 s.memory s.vfs in
      let got = rust.vfs_read (opened.0) rbuf 32 s.memory (opened.1) in
      (3 ≤ opened.0)
      × (opened.0 < 2 ^ 31)
      × (0 < got.0)
      × (got.0 < 32)
      × (string_at 32 rbuf (update (got.1) (rbuf + got.0) 0) ≡ some motd)
      × ((rust.vfs_close (opened.0) (got.2)).0 ≡ 0)

  abbrev pub served : (path rbuf : ℕ) → Machine V → Machine V
  served path rbuf s =
      let opened = rust.vfs_open path 9 s.memory s.vfs in
      let got = rust.vfs_read (opened.0) rbuf 32 s.memory (opened.1) in
      record s {
        memory = update (got.1) (rbuf + got.0) 0;
        vfs = (rust.vfs_close (opened.0) (got.2)).1;
      }

module _ {V : Type 0} (rust : Vfs V) (r : Registers) where
  -- The registers of a call.
  abbrev loaded : (num a1 a2 a3 : ℕ) → Registers
  loaded num a1 a2 a3 = record r { eax = num; ebx = a1; ecx = a2; edx = a3 }

  abbrev answer : Registers × Machine V → ℕ × Machine V
  answer (r', s') = (r'.eax, s')

  do_write :
      (msg n : ℕ) (s : Machine V)
      → msg ≢ 0
      → do_syscall rust r 1 1 msg n s
        ≡ (n, record s { console = klog (bytes_from s.memory msg n) s.console })
  unfolding do_syscall
  do_write msg n s h =
      let (_, _, _, write, _, _, _, _) = syscall_handler_lem rust (loaded 1 1 msg n) s in
      ap answer (write refl refl h)

  do_unknown : (s : Machine V) → do_syscall rust r 9999 0 0 0 s ≡ (u32_max, s)
  unfolding do_syscall
  do_unknown s =
      let (_, unknown, _, _, _, _, _, _) = syscall_handler_lem rust (loaded 9999 0 0 0) s in
      ap answer (unknown (inr (omega arith)))

  do_ticks : (s : Machine V) → do_syscall rust r 2 0 0 0 s ≡ (s.ticks, s)
  unfolding do_syscall
  do_ticks s =
      let (_, _, _, _, ticks, _, _, _) = syscall_handler_lem rust (loaded 2 0 0 0) s in
      ap answer (ticks refl)

  do_open :
      (path n : ℕ) (s : Machine V)
      → let opened = rust.vfs_open path n s.memory s.vfs in
        do_syscall rust r 3 path n 0 s ≡ (opened.0, record s { vfs = opened.1 })
  unfolding do_syscall
  do_open path n s =
      let (_, _, _, _, _, opens, _, _) = syscall_handler_lem rust (loaded 3 path n 0) s in
      ap answer (opens refl)

  do_read :
      (fd buf n : ℕ) (s : Machine V)
      → let got = rust.vfs_read fd buf n s.memory s.vfs in
        do_syscall rust r 4 fd buf n s ≡ (got.0, record s { memory = got.1; vfs = got.2 })
  unfolding do_syscall
  do_read fd buf n s =
      let (_, _, _, _, _, _, read, _) = syscall_handler_lem rust (loaded 4 fd buf n) s in
      ap answer (read refl)

  do_close :
      (fd : ℕ) (s : Machine V)
      → let closed = rust.vfs_close fd s.vfs in
        do_syscall rust r 5 fd 0 0 s ≡ (closed.0, record s { vfs = closed.1 })
  unfolding do_syscall
  do_close fd s =
      let (_, _, _, _, _, _, _, close) = syscall_handler_lem rust (loaded 5 fd 0 0) s in
      ap answer (close refl)

  check_calls_lem :
      (msg : ℕ) (s : Machine V)
      → msg ≢ 0
      → check_calls rust r msg s
        ≡ done (record s { console = klog (bytes_from s.memory msg (length message)) s.console })
  unfolding check_calls
  check_calls_lem msg s h =
      let s1 : Machine V = record s {
        console = klog (bytes_from s.memory msg (length message)) s.console;
      } in
      rw (do_write msg (length message) s h, do_unknown s1, do_ticks s1) refl

  check_file_lem :
      (path rbuf : ℕ) (s : Machine V)
      → Decides
          (Machine V)
          (Serves rust path rbuf s)
          (served rust path rbuf s)
          (check_file rust r path rbuf s)
  unfolding check_file
  check_file_lem path rbuf s =
      let opened = rust.vfs_open path 9 s.memory s.vfs in
      let fd = opened.0 in
      let s1 : Machine V = record s { vfs = opened.1 } in
      let got = rust.vfs_read fd rbuf 32 s.memory (opened.1) in
      let rn = got.0 in
      let m' = update (got.1) (rbuf + rn) 0 in
      let s3 : Machine V = record s { memory = m'; vfs = got.2 } in
      let e1 = do_open path 9 s in
      let e2 = do_read fd rbuf 32 s1 in
      let e3 = do_close fd s3 in
      elim (Bool-cases (leb (2 ^ 31) fd || ltb fd 3)) [
        | inl bad ↦ inr (
          λ (low, high, _, _, _, _). ground (arith, bad, low, high),
          (
            kernel_panic (some (bytes_of "[sys] SYS_OPEN falhou")) s.console.terminal,
            rw (e1, bad) refl,
          ),
        )
        | inr fine ↦ elim (Bool-cases (leb (2 ^ 31) rn || (rn == 0 || leb 32 rn))) [
          | inl empty ↦ inr (
            λ (_, _, some_read, less, _, _). ground (arith, empty, some_read, less),
            (
              kernel_panic (some (bytes_of "[sys] SYS_READ falhou")) s.console.terminal,
              rw (e1, fine, e2, empty) refl,
            ),
          )
          | inr full ↦
              let (text, read, filled) =
                string_at_ends rn 32 rbuf m' (update_self (got.1) (rbuf + rn) 0)
                  (ground (arith, full)) in
              elim (same_cases text motd filled (ground arith)) [
                | inr (other, differs) ↦ inr (
                  λ (_, _, _, _, right, _).
                      other (let both : some text ≡ some motd = sym read ∙ right in cc),
                  (
                    kernel_panic (some (bytes_of "[sys] SYS_READ devolveu conteudo errado"))
                        s.console.terminal,
                    rw (e1, fine, e2, full, read, differs) refl,
                  ),
                )
                | inl (equal, agrees) ↦ elim (Bool-cases ((rust.vfs_close fd (got.2)).0 == 0)) [
                  | inr stuck ↦ inr (
                    λ (_, _, _, _, _, closed). ground (arith, stuck, closed),
                    (
                      kernel_panic (some (bytes_of "[sys] SYS_CLOSE falhou")) s.console.terminal,
                      rw (e1, fine, e2, full, read, agrees, e3, stuck) refl,
                    ),
                  )
                  | inl shut ↦ inl (
                    (
                      ground (arith, fine),
                      ground (arith, fine),
                      ground (arith, full),
                      ground (arith, full),
                      read ∙ ap some equal,
                      ground (arith, shut),
                    ),
                    rw (e1, fine, e2, full, read, agrees, e3, shut) refl,
                  )
                ]
              ]
        ]
      ]

  -- With its first string at an address that is not 0, `syscall_selfcheck` goes on exactly if the file
  -- system serves it: it gives a descriptor above the standard ones, reads 1 to 31 bytes of which
  -- `rbuf` then holds the string "Munux v0.4" with its line feed, and closes. The log then has the
  -- bytes that stand at `msg` and the line that all is well. If not, it panics.
  pub syscall_selfcheck_lem :
      (msg path rbuf : ℕ) (s : Machine V)
      → msg ≢ 0
      → Decides
          (Machine V)
          (Serves rust path rbuf s)
          (record (served rust path rbuf s) {
            console =
                klog
                  (bytes_of "[sys] syscalls (int 0x80): OK\n")
                  (klog (bytes_from s.memory msg (length message)) s.console);
          })
          (syscall_selfcheck rust r msg path rbuf s)
  unfolding syscall_selfcheck
  syscall_selfcheck_lem msg path rbuf s h =
      let s1 : Machine V = record s {
        console = klog (bytes_from s.memory msg (length message)) s.console;
      } in
      let e1 = check_calls_lem msg s h in
      elim (check_file_lem path rbuf s1) [
        | inl (serves, e2) ↦ inl (serves, rw (e1, e2) refl)
        | inr (fails, (t, e2)) ↦ inr (fails, (t, rw (e1, e2) refl))
      ]
