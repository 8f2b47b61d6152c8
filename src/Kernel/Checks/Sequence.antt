-- ===== src/Kernel/Checks/Sequence.antt =====
-- The tests in the order in which `kernel_main` of munux-os/kernel/kernel.c runs them, between the
-- start of the interrupts and the shell. The tests of the Rust library on itself are parameters:
-- their result, and what they do to the file system or to the disk.
pub mod Shell
use munux.Common.{ℕ, List, ◌∷◌, ◌++◌, not, ◌==◌, if◌then◌else◌}
use munux.Common.Text.{bytes_of}
use munux.Common.Memory.{Memory}
use munux.Drivers.Ports.{Bus}
use munux.Drivers.Disk.{disk_init, disk_present}
use munux.Kernel.Console.{Console, klog}
use munux.Kernel.Syscall.{Registers, Machine, Vfs}
use munux.Kernel.Checks.{
  Run, undefined, halted, done, ◌>>=◌, panic_if, libk_selfcheck, boot_selfcheck,
}
use munux.Kernel.Checks.Syscalls.{syscall_selfcheck}

-- Where the arrays and the strings stand: `buf` of `klog_uint` is `digits`, the three arrays of
-- `libk_selfcheck`, and the two strings and the array of `syscall_selfcheck`.
pub record Places : Type 0 where
  pub digits : ℕ
  pub buf : ℕ
  pub sb : ℕ
  pub tiny : ℕ
  pub msg : ℕ
  pub path : ℕ
  pub rbuf : ℕ

-- `munux_rs_vfs_selftest`, `munux_rs_vfs_init`, `munux_rs_bcache_selftest` and
-- `munux_rs_ext2_selftest`.
pub record Selftests (V D : Type 0) : Type 0 where
  pub vfs_selftest : V → ℕ × V
  pub vfs_init : V → V
  pub bcache_selftest : D → ℕ × D
  pub ext2_selftest : D → ℕ × D

-- The dash is three bytes of UTF-8.
abbrev pub no_disk_text : List ℕ
no_disk_text = bytes_of "[ext2] sem disco anexado " ++ 0xe2 ∷ 0x80 ∷ 0x94 ∷ bytes_of " pulado\n"

module _ {V D : Type 0} (rs : Selftests V D) (bus : Bus D) where
  -- The tests on an attached disk.
  pub check_attached : D → Console → Run (Console × D)
  check_attached d s = do
    let (failed, d1) = rs.bcache_selftest d
    cached ← panic_if (not (failed == 0)) (bytes_of "[bcache] cache de disco falhou") s.terminal
    let s1 = klog (bytes_of "[bcache] cache de setores (hit/miss): OK\n") s
    let (unread, d2) = rs.ext2_selftest d1
    read ← panic_if (not (unread == 0)) (bytes_of "[ext2] leitura da imagem falhou") s1.terminal
    done (klog (bytes_of "[ext2] montar + ler /hello.txt: OK\n") s1, d2)

  pub check_disk : D → Console → Run (Console × D)
  check_disk d s =
      let (attached, d1) = disk_present bus (disk_init bus d) in
      if attached then check_attached d1 s else done (klog no_disk_text s, d1)

module _ {V D : Type 0} (rust : Vfs V) (rs : Selftests V D) (bus : Bus D) where
  -- `now` is the count that SYS_GET_TICKS returns.
  pub start_tests :
      (ticks : ℕ → ℕ) (now : ℕ)
      → Registers
      → Places
      → V
      → D
      → Memory
      → Console
      → Run (Machine V × D)
  start_tests ticks now r places v d m s = do
    s1 ← boot_selfcheck ticks places.digits m s
    tested ← libk_selfcheck places.buf places.sb places.tiny m s1
    let (failed, v1) = rs.vfs_selftest v
    passed ←
        panic_if (not (failed == 0)) (bytes_of "[vfs] tmpfs selftest falhou") (tested.1).terminal
    machine ← syscall_selfcheck rust r places.msg places.path places.rbuf (record {
      memory = tested.0;
      console = klog (bytes_of "[vfs] tmpfs (criar/escrever/ler/listar): OK\n") (tested.1);
      ticks = now;
      vfs = rs.vfs_init v1;
    })
    disk ← check_disk rs bus d machine.console
    done (record machine { console = disk.0 }, disk.1)
