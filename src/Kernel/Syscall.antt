-- ===== src/Kernel/Syscall.antt =====
-- munux-os/kernel/syscall.c: the dispatcher of int 0x80. The file system is the Rust library's: its
-- state and the three functions that the dispatcher calls are parameters.
pub mod Dispatch
mod Tests
use munux.Common.{ℕ, zero, suc, ◌+◌, List, [], ◌∷◌, not, ◌||◌, ◌==◌, if◌then◌else◌}
use munux.Common.Word.{u32_max}
use munux.Common.Memory.{Memory}
use munux.Kernel.Console.{Console, put_both}

-- `registers_t`
pub record Registers : Type 0 where
  pub ds : ℕ
  pub edi : ℕ
  pub esi : ℕ
  pub ebp : ℕ
  pub esp : ℕ
  pub ebx : ℕ
  pub edx : ℕ
  pub ecx : ℕ
  pub eax : ℕ
  pub int_no : ℕ
  pub err_code : ℕ
  pub eip : ℕ
  pub cs : ℕ
  pub eflags : ℕ
  pub useresp : ℕ
  pub ss : ℕ

abbrev pub number_write : ℕ
number_write = 1

abbrev pub number_get_ticks : ℕ
number_get_ticks = 2

abbrev pub number_open : ℕ
number_open = 3

abbrev pub number_read : ℕ
number_read = 4

abbrev pub number_close : ℕ
number_close = 5

-- The loop of `sys_write` from `buf` on, with `n` bytes left.
pub put_bytes : (n buf : ℕ) → Memory → Console → Console
put_bytes zero buf m s = s
put_bytes (suc n) buf m s = put_bytes n (buf + 1) m (put_both (m buf) s)

-- `sys_write`
pub sys_write : (fd buf len : ℕ) → Memory → Console → ℕ × Console
sys_write fd buf len m s =
    if not (fd == 1) || buf == 0 then (u32_max, s) else (len, put_bytes len buf m s)

-- What a system call works on: the memory, the log, the tick counter and the file system.
pub record Machine {ℓ} (V : Type ℓ) : Type ℓ where
  pub memory : Memory
  pub console : Console
  pub ticks : ℕ
  pub vfs : V

-- `munux_rs_vfs_open`, `munux_rs_vfs_read` and `munux_rs_vfs_close`, with results as 32-bit patterns.
pub record Vfs {ℓ} (V : Type ℓ) : Type ℓ where
  pub vfs_open : (path len : ℕ) → Memory → V → ℕ × V
  pub vfs_read : (fd buf len : ℕ) → Memory → V → ℕ × Memory × V
  pub vfs_close : (fd : ℕ) → V → ℕ × V

module _ {ℓ} {V : Type ℓ} (rust : Vfs V) where
  -- The `switch` of `syscall_handler`: the result and the machine.
  pub dispatch : Registers → Machine V → ℕ × Machine V
  dispatch r s =
      let (written, console') = sys_write r.ebx r.ecx r.edx s.memory s.console in
      let (opened, vfs1) = rust.vfs_open r.ebx r.ecx s.memory s.vfs in
      let (got, memory', vfs2) = rust.vfs_read r.ebx r.ecx r.edx s.memory s.vfs in
      let (closed, vfs3) = rust.vfs_close r.ebx s.vfs in
      if r.eax == number_write
      then (written, record s { console = console' })
      else if r.eax == number_get_ticks
      then (s.ticks, s)
      else if r.eax == number_open
      then (opened, record s { vfs = vfs1 })
      else if r.eax == number_read
      then (got, record s { memory = memory'; vfs = vfs2 })
      else if r.eax == number_close
      then (closed, record s { vfs = vfs3 })
      else (u32_max, s)

  -- `syscall_handler`
  pub syscall_handler : Registers → Machine V → Registers × Machine V
  syscall_handler r s = let (ret, s') = dispatch r s in (record r { eax = ret }, s')
