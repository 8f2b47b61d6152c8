-- ===== src/Kernel/Checks/Sequence/Shell.antt =====
-- When the tests of the start let it come to the shell.
use munux.Common.{
  ℕ, true, false, ◌+◌, ◌^◌, ◌≤◌, ◌<◌, ◌≡◌, ◌≢◌, refl, ap, ◌∙◌, ◌++◌, ◌⊎◌, inl, inr, some, List, [],
  All, ◌==◌, length, if◌then◌else◌, Bool-cases, arith,
}
use munux.Common.Text.{bytes_of}
use munux.Common.Memory.{Memory}
use munux.Libk.Conv.Digits.{IsDigitOf}
use munux.Drivers.Ports.{Bus}
use munux.Drivers.Serial.{com1, serial_writestring}
use munux.Drivers.Serial.Uart.{Uart, serial_writestring_lem}
use munux.Drivers.Disk.{disk_init, disk_present}
use munux.Kernel.Panic.{kernel_panic}
use munux.Kernel.Console.{Console, klog, klog-append, bytes_from}
use munux.Kernel.Syscall.{Registers, Machine, Vfs}
use munux.Kernel.Checks.{Decides, spin_limit}
use munux.Kernel.Checks.Conversions.{libk_selfcheck_lem}
use munux.Kernel.Checks.Ticking.{announced, waiting_text, boot_selfcheck_lem}
use munux.Kernel.Checks.Syscalls.{message}
use munux.Kernel.Checks.Syscalls.Accepts.{Serves, served, syscall_selfcheck_lem}
use munux.Kernel.Checks.Sequence.{
  Places, Selftests, check_attached, check_disk, no_disk_text, start_tests,
}

module _ {V D : Type 0} (rs : Selftests V D) (bus : Bus D) where
  -- No disk is attached, or the cache and the file system of the one attached pass their tests.
  abbrev pub DiskPasses : D → Type 0
  DiskPasses d =
      let (attached, d1) = disk_present bus (disk_init bus d) in
      (attached ≡ false)
      ⊎ ((attached ≡ true)
          × ((rs.bcache_selftest d1).0 ≡ 0)
          × ((rs.ext2_selftest ((rs.bcache_selftest d1).1)).0 ≡ 0))

  -- The log and the device behind the tests of the disk.
  abbrev pub disk_log : D → Console → Console
  disk_log d s =
      if (disk_present bus (disk_init bus d)).0
      then klog (bytes_of "[ext2] montar + ler /hello.txt: OK\n")
          (klog (bytes_of "[bcache] cache de setores (hit/miss): OK\n") s)
      else klog no_disk_text s

  abbrev pub disk_after : D → D
  disk_after d =
      let (attached, d1) = disk_present bus (disk_init bus d) in
      if attached then (rs.ext2_selftest ((rs.bcache_selftest d1).1)).1 else d1

  check_disk_lem :
      (d : D) (s : Console)
      → Decides (Console × D) (DiskPasses d) (disk_log d s, disk_after d) (check_disk rs bus d s)
  unfolding check_disk check_attached
  check_disk_lem d s =
      let present = disk_present bus (disk_init bus d) in
      let cached = rs.bcache_selftest (present.1) in
      let read = rs.ext2_selftest (cached.1) in
      elim (Bool-cases (present.0)) [
        | inr absent ↦ inl (inl absent, rw absent refl)
        | inl attached ↦ elim (Bool-cases (cached.0 == 0)) [
          | inr missed ↦ inr (
            passes_not d attached (λ e. ground (arith, missed, e)),
            (
              kernel_panic (some (bytes_of "[bcache] cache de disco falhou")) s.terminal,
              rw (attached, missed) refl,
            ),
          )
          | inl hit ↦ elim (Bool-cases (read.0 == 0)) [
            | inr unread ↦ inr (
              passes_not' d attached (λ e. ground (arith, unread, e)),
              (
                kernel_panic (some (bytes_of "[ext2] leitura da imagem falhou"))
                    (klog (bytes_of "[bcache] cache de setores (hit/miss): OK\n") s).terminal,
                rw (attached, hit, unread) refl,
              ),
            )
            | inl whole ↦ inl (
              inr (attached, ground (arith, hit), ground (arith, whole)),
              rw (attached, hit, whole) refl,
            )
          ]
        ]
      ]
    where
      passes_not :
          (d : D)
          → (disk_present bus (disk_init bus d)).0 ≡ true
          → ((rs.bcache_selftest ((disk_present bus (disk_init bus d)).1)).0 ≢ 0)
          → ¬ DiskPasses d
      passes_not d attached bad (inl absent) = absurd (cc)
      passes_not d attached bad (inr (_, e, _)) = bad e

      passes_not' :
          (d : D)
          → (disk_present bus (disk_init bus d)).0 ≡ true
          → ((rs.ext2_selftest ((rs.bcache_selftest ((disk_present bus (disk_init bus d)).1)).1)).0
              ≢ 0)
          → ¬ DiskPasses d
      passes_not' d attached bad (inl absent) = absurd (cc)
      passes_not' d attached bad (inr (_, _, e)) = bad e

-- One of the calls of `timer_get_ticks` up to the end of the loop returns more than the first.
abbrev pub Moves : (ℕ → ℕ) → Type 0
Moves ticks = (n : ℕ) × (n ≤ spin_limit + 2) × (ticks 0 < ticks n)

-- The log up to the test of the system calls, with the text of the counter.
abbrev pub logged : List ℕ → Console → Console
logged text s = klog (bytes_of "[vfs] tmpfs (criar/escrever/ler/listar): OK\n") (
    klog (bytes_of "[libk] string/conv/ctype/printf: OK\n")
      (klog (bytes_of " tick(s) via interrupcao.\n") (klog text (announced s))))

-- The second log is the first one and what was logged since.
abbrev Since : Console → Console → Type 0
Since s s' = (said : List ℕ) × (s' ≡ klog said s)

Since-klog : (text : List ℕ) (s s' : Console) → Since s s' → Since s (klog text s')
Since-klog text s s' (said, e) = (said ++ text, ap (λ x. klog text x) e ∙ klog-append said text s)

Since-logged : (text : List ℕ) (s : Console) → Since s (logged text s)
Since-logged text s = Since-klog _ s _ (
    Since-klog _ s _
      (Since-klog _ s _ (Since-klog text s _ (Since-klog _ s _ (waiting_text, refl)))))

Since-disk_log :
    {V D : Type 0} (rs : Selftests V D) (bus : Bus D) (d : D) (s s' : Console)
    → Since s s'
    → Since s (disk_log rs bus d s')
Since-disk_log rs bus d s s' since = elim (Bool-cases ((disk_present bus (disk_init bus d)).0)) [
  | inl attached ↦ rw attached (Since-klog _ s _ (Since-klog _ s s' since))
  | inr absent ↦ rw absent (Since-klog no_disk_text s s' since)
]

module _ {V D : Type 0} (rust : Vfs V) (rs : Selftests V D) (bus : Bus D) where
  -- The machine on which the system calls are tested.
  abbrev pub tested : (now : ℕ) → V → Memory → Console → Machine V
  tested now v m s = record {
    memory = m;
    console = s;
    ticks = now;
    vfs = rs.vfs_init ((rs.vfs_selftest v).1);
  }

  -- What the start waits for or tests.
  abbrev pub Passes : (ticks : ℕ → ℕ) (now : ℕ) → Places → V → D → Memory → Console → Type 0
  Passes ticks now places v d m s =
      Moves ticks
      × ((rs.vfs_selftest v).0 ≡ 0)
      × Serves rust places.path places.rbuf (tested now v m s)
      × DiskPasses rs bus d

  -- The machine and the disk that the shell starts with.
  abbrev pub started : (now : ℕ) → Places → V → D → Memory → Console → Machine V × D
  started now places v d m s = (
    record (served rust places.path places.rbuf (tested now v m s)) {
      console = disk_log rs bus d (
          klog (bytes_of "[sys] syscalls (int 0x80): OK\n")
            (klog (bytes_from m places.msg (length message)) s));
    },
    disk_after rs bus d,
  )

  start_tests_decided :
      (ticks : ℕ → ℕ) (now : ℕ) (r : Registers) (places : Places) (v : V) (d : D) (m : Memory)
      (s : Console)
      → ((i : ℕ) → ticks i ≤ ticks (i + 1))
      → ((i : ℕ) → ticks i < 2 ^ 32)
      → places.msg ≢ 0
      → (m' : Memory) × (text : List ℕ) × All (IsDigitOf 10) text
        × ((q : ℕ)
            → (q < places.buf) ⊎ (places.buf + 12 ≤ q)
            → (q < places.sb) ⊎ (places.sb + 64 ≤ q)
            → (q < places.tiny) ⊎ (places.tiny + 4 ≤ q)
            → m' q ≡ m q)
        × Decides
            (Machine V × D)
            (Passes ticks now places v d m' (logged text s))
            (started now places v d m' (logged text s))
            (start_tests rust rs bus ticks now r places v d m s)
  unfolding start_tests
  start_tests_decided ticks now r places v d m s counts small msg =
      elim (boot_selfcheck_lem ticks counts small places.digits m s) [
        | inr (still, stops) ↦ (
          m,
          [],
          tt,
          λ q _ _ _. refl,
          inr (
            λ ((n, near, more), _, _, _). omega (arith, still n near, more),
            (
              kernel_panic (some (bytes_of "[chk] timer nao avancou: IRQ/PIC/sti falhou"))
                  (klog waiting_text s).terminal,
              rw stops refl,
            ),
          ),
        )
        | inl (k, text, near, more, _, all, e1) ↦
            let s1 = klog (bytes_of " tick(s) via interrupcao.\n") (klog text (announced s)) in
            let (m', e2, apart) = libk_selfcheck_lem places.buf places.sb places.tiny m s1 in
            let start = tested now v m' (logged text s) in
            let s4 =
              klog (bytes_of "[sys] syscalls (int 0x80): OK\n")
                (klog (bytes_from m' places.msg (length message)) (logged text s)) in
            (
              m',
              text,
              all,
              apart,
              elim (Bool-cases ((rs.vfs_selftest v).0 == 0)) [
                | inr bad ↦ inr (
                  λ (_, good, _, _). ground (arith, bad, good),
                  (
                    kernel_panic (some (bytes_of "[vfs] tmpfs selftest falhou"))
                        (klog (bytes_of "[libk] string/conv/ctype/printf: OK\n") s1).terminal,
                    rw (e1, e2, bad) refl,
                  ),
                )
                | inl good ↦
                    elim (syscall_selfcheck_lem rust r places.msg places.path places.rbuf start
                      msg) [
                        | inr (fails, (t, e3)) ↦
                            inr (λ (_, _, serves, _). fails serves, (t, rw (e1, e2, good, e3) refl))
                        | inl (serves, e3) ↦ elim (check_disk_lem rs bus d s4) [
                          | inr (fails, (t, e4)) ↦
                              inr
                                (λ (_, _, _, disk). fails disk, (t, rw (e1, e2, good, e3, e4) refl))
                          | inl (disk, e4) ↦ inl (
                            ((k, near, more), ground (arith, good), serves, disk),
                            rw (e1, e2, good, e3, e4) refl,
                          )
                        ]
                      ]
              ],
            )
      ]

  -- On a UART at COM1 whose transmitter is full for fewer polls than the fuel of each character, with a
  -- counter of the timer that has 32 bits and never goes back, and the message of the system calls
  -- at an address that is not 0, the tests of the start go on to the shell exactly if all of these
  -- hold: the timer moves before the loop ends; the file system passes its own test; it serves the
  -- calls, on a memory `m'` that differs from the first one at most in the three arrays of the test
  -- of libk; and no disk is attached, or both its tests pass. If not, the kernel panics. The log
  -- that the shell starts with has the line of each test, in their order, and the UART sends all of
  -- it: its waits end.
  pub start_tests_lem :
      {E : Type 0} (line : Bus E) (uart : Uart line com1) (fuel : ℕ) (e : E) (ticks : ℕ → ℕ)
      (now : ℕ) (r : Registers) (places : Places) (v : V) (d : D) (m : Memory) (s : Console)
      → ((e : E) → uart.delay e < fuel)
      → ((i : ℕ) → ticks i ≤ ticks (i + 1))
      → ((i : ℕ) → ticks i < 2 ^ 32)
      → places.msg ≢ 0
      → (m' : Memory) × (text : List ℕ) × (said : List ℕ) × (e' : E) × All (IsDigitOf 10) text
        × ((q : ℕ)
            → (q < places.buf) ⊎ (places.buf + 12 ≤ q)
            → (q < places.sb) ⊎ (places.sb + 64 ≤ q)
            → (q < places.tiny) ⊎ (places.tiny + 4 ≤ q)
            → m' q ≡ m q)
        × Decides
            (Machine V × D)
            (Passes ticks now places v d m' (logged text s))
            (started now places v d m' (logged text s))
            (start_tests rust rs bus ticks now r places v d m s)
        × ((started now places v d m' (logged text s)).0.console ≡ klog said s)
        × (serial_writestring line fuel com1 said e ≡ some e')
        × (uart.sent e' ≡ uart.sent e ++ said)
  start_tests_lem line uart fuel e ticks now r places v d m s empties counts small msg =
      let (m', text, all, apart, decided) =
        start_tests_decided ticks now r places v d m s counts small msg in
      let (said, whole) = Since-disk_log rs bus d s _ (
        Since-klog (bytes_of "[sys] syscalls (int 0x80): OK\n") s _
          (Since-klog (bytes_from m' places.msg (length message)) s _ (Since-logged text s))) in
      let (e', ran, out) = serial_writestring_lem line com1 uart fuel said e empties in
      (m', text, said, e', all, apart, decided, whole, ran, out)
