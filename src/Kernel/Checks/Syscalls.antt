-- ===== src/Kernel/Checks/Syscalls.antt =====
-- `syscall_selfcheck` of munux-os/kernel/kernel.c. `r` holds the registers that `do_syscall` leaves
-- alone, and `msg`, `path` and `rbuf` are where its two strings and its array stand. The stub of
-- `int 0x80` is assembly: a call is the run of `syscall_handler` on the saved registers.
pub mod Accepts
use munux.Common.{ℕ, ◌+◌, ◌^◌, List, not, ◌||◌, ◌==◌, ltb, leb, length}
use munux.Common.Text.{bytes_of}
use munux.Common.Word.{u32_max}
use munux.Common.Memory.{update}
use munux.Kernel.Console.{klog}
use munux.Kernel.Syscall.{Registers, Machine, Vfs, syscall_handler}
use munux.Kernel.Checks.{Run, undefined, halted, done, ◌>>=◌, panic_if, expect}

abbrev pub message : List ℕ
message = bytes_of "[sys] escrito via int 0x80\n"

abbrev pub motd : List ℕ
motd = bytes_of "Munux v0.4\n"

module _ {V : Type 0} (rust : Vfs V) (r : Registers) where
  -- `do_syscall`
  unfoldable pub do_syscall : (num a1 a2 a3 : ℕ) → Machine V → ℕ × Machine V
  do_syscall num a1 a2 a3 s =
      let (r', s') =
        syscall_handler rust (record r { eax = num; ebx = a1; ecx = a2; edx = a3 }) s in
      (r'.eax, s')

  -- The calls that need no file.
  pub check_calls : (msg : ℕ) → Machine V → Run (Machine V)
  check_calls msg s = do
    let (written, s1) = do_syscall 1 1 msg (length message) s
    whole ←
        panic_if (not (written == length message))
          (bytes_of "[sys] SYS_WRITE retornou tamanho errado") s1.console.terminal
    let (unknown, s2) = do_syscall 9999 0 0 0 s1
    refused ←
        panic_if (not (unknown == u32_max))
          (bytes_of "[sys] syscall desconhecida deveria retornar -1") s2.console.terminal
    let (_, s3) = do_syscall 2 0 0 0 s2
    done s3

  -- `fd < 3`, `rn <= 0` and `rn >= 32` of signed numbers.
  pub check_file : (path rbuf : ℕ) → Machine V → Run (Machine V)
  check_file path rbuf s = do
    let (fd, s1) = do_syscall 3 path (length (bytes_of "/etc/motd")) 0 s
    opened ←
        panic_if (leb (2 ^ 31) fd || ltb fd 3) (bytes_of "[sys] SYS_OPEN falhou")
          s1.console.terminal
    let (rn, s2) = do_syscall 4 fd rbuf 32 s1
    got ←
        panic_if (leb (2 ^ 31) rn || (rn == 0 || leb 32 rn)) (bytes_of "[sys] SYS_READ falhou")
          s2.console.terminal
    let s3 = record s2 { memory = update s2.memory (rbuf + rn) 0 }
    right ←
        expect 32 rbuf motd (bytes_of "[sys] SYS_READ devolveu conteudo errado") s3.memory
          s3.console.terminal
    let (closed, s4) = do_syscall 5 fd 0 0 s3
    shut ← panic_if (not (closed == 0)) (bytes_of "[sys] SYS_CLOSE falhou") s4.console.terminal
    done s4

  -- `syscall_selfcheck`
  pub syscall_selfcheck : (msg path rbuf : ℕ) → Machine V → Run (Machine V)
  syscall_selfcheck msg path rbuf s = do
    s1 ← check_calls msg s
    s2 ← check_file path rbuf s1
    done (record s2 { console = klog (bytes_of "[sys] syscalls (int 0x80): OK\n") s2.console })
