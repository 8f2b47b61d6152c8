-- ===== src/Kernel/Panic.antt =====
-- `kernel_panic` of munux-os/kernel/kernel.c, up to the halt. A null message is `none`.
use munux.Common.{ℕ, Option, none, some, List}
use munux.Common.Text.{bytes_of}
use munux.Kernel.Terminal.{Terminal, vga_entry_color, setcolor, write}

-- The message and its line feed.
abbrev pub write_message : Option (List ℕ) → Terminal → Terminal
write_message none t = t
write_message (some msg) t = write (bytes_of "\n") (write msg t)

unfoldable pub kernel_panic : Option (List ℕ) → Terminal → Terminal
kernel_panic msg t =
    write_message msg
      (write (bytes_of "\n*** KERNEL PANIC ***\n") (setcolor (vga_entry_color 15 4) t))
