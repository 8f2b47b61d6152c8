-- ===== src/Kernel/Syscall/Tests.antt =====
-- System calls at concrete registers, over a file system that counts its calls.
use munux.Common.{ℕ, ◌+◌, ◌<◌, ◌≡◌, ◌≢◌, ◌⊎◌, []}
use munux.Common.Word.{u32_max}
use munux.Common.Memory.{update}
use munux.Kernel.Console.{klog, bytes_from}
use munux.Kernel.Syscall.{Registers, Machine, Vfs, syscall_handler}
use munux.Kernel.Syscall.Dispatch.{syscall_handler_lem}

abbrev counter : Vfs ℕ
counter = record {
  vfs_open = λ path len m calls. (3, calls + 1);
  vfs_read = λ fd buf len m calls. (1, update m buf b'x', calls + 1);
  vfs_close = λ fd calls. (0, calls + 1);
}

abbrev machine : Machine ℕ
machine = record {
  memory = λ q. b'a';
  console = record {
    terminal = record { video = λ q. 0; row = 0; column = 0; color = 7 };
    sent = [];
  };
  ticks = 12;
  vfs = 0;
}

-- `write(1, 16, 3)`
abbrev call : Registers
call = record {
  ds = 0;
  edi = 0;
  esi = 0;
  ebp = 0;
  esp = 0;
  ebx = 1;
  edx = 3;
  ecx = 16;
  eax = 1;
  int_no = 128;
  err_code = 0;
  eip = 0;
  cs = 8;
  eflags = 0;
  useresp = 0;
  ss = 0;
}

syscall_handler_lem_example :
    let result = syscall_handler counter call machine in
    (result.0 ≡ record call { eax = result.0.eax })
    × (((call.eax ≡ 0) ⊎ (5 < call.eax)) → result ≡ (record call { eax = u32_max }, machine))
    × ((call.eax ≡ 1)
        → ((call.ebx ≢ 1) ⊎ (call.ecx ≡ 0))
        → result ≡ (record call { eax = u32_max }, machine))
    × ((call.eax ≡ 1)
        → (call.ebx ≡ 1)
        → (call.ecx ≢ 0)
        → result ≡ (
          record call { eax = 3 },
          record machine { console = klog (bytes_from machine.memory 16 3) machine.console },
        ))
    × ((call.eax ≡ 2) → result ≡ (record call { eax = 12 }, machine))
    × ((call.eax ≡ 3) → result ≡ (record call { eax = 3 }, record machine { vfs = 1 }))
    × ((call.eax ≡ 4)
        → result ≡ (
          record call { eax = 1 },
          record machine { memory = update machine.memory 16 b'x'; vfs = 1 },
        ))
    × ((call.eax ≡ 5) → result ≡ (record call { eax = 0 }, record machine { vfs = 1 }))
syscall_handler_lem_example = syscall_handler_lem counter call machine
