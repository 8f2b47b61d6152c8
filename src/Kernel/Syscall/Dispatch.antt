-- ===== src/Kernel/Syscall/Dispatch.antt =====
-- What each system call returns and changes.
use mathlib.Core.List.{append-nil, append_assoc}
use munux.Common.{
  ℕ, zero, suc, ◌+◌, ◌<◌, ◌≡◌, ◌≢◌, refl, sym, ◌∙◌, ◌⊎◌, false, [], ◌∷◌, ◌==◌, arith,
}
use munux.Common.Word.{u32_max}
use munux.Common.Memory.{Memory}
use munux.Kernel.Terminal.{write}
use munux.Kernel.Console.{Console, put_both, klog, bytes_from}
use munux.Kernel.Syscall.{Registers, Machine, Vfs, put_bytes, sys_write, dispatch, syscall_handler}

-- The loop logs the bytes of the buffer.
put_bytes_lem :
    (n buf : ℕ) (m : Memory) (s : Console) → put_bytes n buf m s ≡ klog (bytes_from m buf n) s
unfolding put_bytes write
put_bytes_lem zero buf m s = λ i. record s { sent = sym (append-nil s.sent) i }
put_bytes_lem (suc n) buf m s = put_bytes_lem n (buf + 1) m (put_both (m buf) s) ∙ λ i. record {
  terminal = write (bytes_from m (buf + 1) n) (put_both (m buf) s).terminal;
  sent = append_assoc s.sent (m buf ∷ []) (bytes_from m (buf + 1) n) i;
}

sys_write_ok :
    (buf len : ℕ) (m : Memory) (s : Console)
    → buf ≢ 0
    → sys_write 1 buf len m s ≡ (len, klog (bytes_from m buf len) s)
unfolding sys_write
sys_write_ok buf len m s b =
    let e : (buf == 0) ≡ false = ground arith in rw (e, put_bytes_lem len buf m s) refl

sys_write_error :
    (fd buf len : ℕ) (m : Memory) (s : Console)
    → (fd ≢ 1) ⊎ (buf ≡ 0)
    → sys_write fd buf len m s ≡ (u32_max, s)
unfolding sys_write
sys_write_error fd buf len m s h = ground arith

-- The number of the call is in `eax`, and so is its result; no other register changes.
-- A call of no number and a `write` to another descriptor or from a null pointer give -1 and
-- leave the machine as it was.
pub syscall_handler_lem {ℓ} :
    {V : Type ℓ} (rust : Vfs V) (r : Registers) (s : Machine V)
    → let result = syscall_handler rust r s in
      (result.0 ≡ record r { eax = result.0.eax })
      × (((r.eax ≡ 0) ⊎ (5 < r.eax)) → result ≡ (record r { eax = u32_max }, s))
      × ((r.eax ≡ 1) → ((r.ebx ≢ 1) ⊎ (r.ecx ≡ 0)) → result ≡ (record r { eax = u32_max }, s))
      × ((r.eax ≡ 1)
          → (r.ebx ≡ 1)
          → (r.ecx ≢ 0)
          → result ≡ (
            record r { eax = r.edx },
            record s { console = klog (bytes_from s.memory r.ecx r.edx) s.console },
          ))
      × ((r.eax ≡ 2) → result ≡ (record r { eax = s.ticks }, s))
      × ((r.eax ≡ 3)
          → let opened = rust.vfs_open r.ebx r.ecx s.memory s.vfs in
            result ≡ (record r { eax = opened.0 }, record s { vfs = opened.1 }))
      × ((r.eax ≡ 4)
          → let got = rust.vfs_read r.ebx r.ecx r.edx s.memory s.vfs in
            result ≡ (record r { eax = got.0 }, record s { memory = got.1; vfs = got.2 }))
      × ((r.eax ≡ 5)
          → let closed = rust.vfs_close r.ebx s.vfs in
            result ≡ (record r { eax = closed.0 }, record s { vfs = closed.1 }))
unfolding syscall_handler dispatch
syscall_handler_lem rust r s = (
  refl,
  λ h.
      let e1 : (r.eax == 1) ≡ false = ground arith in
      let e2 : (r.eax == 2) ≡ false = ground arith in
      let e3 : (r.eax == 3) ≡ false = ground arith in
      let e4 : (r.eax == 4) ≡ false = ground arith in
      let e5 : (r.eax == 5) ≡ false = ground arith in rw (e1, e2, e3, e4, e5) refl,
  λ e h. rw (e, sys_write_error r.ebx r.ecx r.edx s.memory s.console h) refl,
  λ e f b. rw (e, f, sys_write_ok r.ecx r.edx s.memory s.console b) refl,
  λ e. rw e refl,
  λ e. rw e refl,
  λ e. rw e refl,
  λ e. rw e refl,
)
