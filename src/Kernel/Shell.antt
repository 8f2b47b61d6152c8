-- ===== src/Kernel/Shell.antt =====
-- The shell of munux-os/kernel/kernel.c. The characters that `keyboard_getchar` returns are a list;
-- the array `line` is the memory from index 0, of which 128 bytes are the shell's.
pub mod Line
pub mod Round
pub mod Exec
pub mod Answers
mod Tests
use munux.Common.{
  ◌>>=◌, ℕ, zero, suc, ◌+◌, ◌-◌, Option, none, some, List, [], ◌∷◌, ◌++◌, drop, ◌&&◌, ◌==◌, ltb,
  leb, if◌then◌else◌,
}
use munux.Common.Text.{bytes_of}
use munux.Common.Memory.{Memory, update}
use munux.Common.Int.{ℤ, pos, is_zero}
use munux.Kernel.Terminal.{Terminal, backspace, clear}
use munux.Kernel.Console.{Console, put_both, show, use_color, klog, kprintf, string_at}
use munux.Libk.Printf.{Arg, word}
use munux.Libk.Strings.{strcmp, strncmp}

abbrev pub line_size : ℕ
line_size = 128

pub record Editing : Type 0 where
  pub line : Memory
  pub len : ℕ
  pub console : Console

-- One character that is no line feed.
pub edit_key : ℕ → Editing → Editing
edit_key c e =
    if c == 8
    then (if ltb 0 e.len
        then record e {
          len = e.len - 1;
          console = record {
            terminal = backspace e.console.terminal;
            sent = e.console.sent ++ 8 ∷ [];
          };
        }
        else e)
    else if leb 32 c && ltb c 127
    then (if ltb e.len (line_size - 1)
        then record {
          line = update e.line e.len c;
          len = e.len + 1;
          console = put_both c e.console;
        }
        else e)
    else e

-- The line feed ends the line.
pub end_line : Editing → Editing
end_line e = record e { line = update e.line e.len 0; console = put_both b'\n' e.console }

-- The inner loop of `shell_run`: what is left of the characters, and the line; `none` if they end
-- before a line feed.
pub read_line : List ℕ → Editing → Option (List ℕ × Editing)
read_line [] e = none
read_line (c ∷ keys) e =
    let later = read_line keys (edit_key c e) in
    if c == b'\n' then some (keys, end_line e) else later

abbrev pub help_text : List ℕ
help_text = bytes_of "Comandos: help, clear, about, ticks, echo <texto>\n"

-- The dash is three bytes of UTF-8.
abbrev pub about_text : List ℕ
about_text =
    bytes_of "Munux OS "
    ++ 0xe2 ∷ 0x80 ∷ 0x94 ∷ bytes_of " flavor de proposito geral do ecossistema Munux.\n"

abbrev pub kernel_text : List ℕ
kernel_text = bytes_of "Kernel poliglota C + Assembly + Rust (no_std).\n"

-- `shell_exec`; `ticks` is what `timer_get_ticks` returns, and `buf` and `m` the memory of `kprintf`.
pub shell_exec : List ℕ → (ticks buf : ℕ) → Memory → Console → Option Console
shell_exec [] ticks buf m s = some s
shell_exec (c ∷ rest) ticks buf m s =
    let line = c ∷ rest in
    if is_zero (strcmp line (bytes_of "help"))
    then some (klog help_text s)
    else if is_zero (strcmp line (bytes_of "clear"))
    then some (record s { terminal = clear s.terminal })
    else if is_zero (strcmp line (bytes_of "about"))
    then some (klog kernel_text (klog about_text s))
    else if is_zero (strcmp line (bytes_of "ticks"))
    then kprintf buf (bytes_of "Ticks do timer desde o boot: %u\n") (word ticks ∷ []) m s
    else if is_zero (strncmp line (bytes_of "echo ") 5)
    then some (klog (bytes_of "\n") (klog (drop 5 line) s))
    else some (klog (bytes_of "\n") (klog line (klog (bytes_of "comando nao encontrado: ") s)))

-- `shell_exec(line)` of what stands in the array.
abbrev pub exec_line : (ticks buf : ℕ) → Memory → List ℕ × Editing → Option (List ℕ × Console)
exec_line ticks buf m (keys, e) = string_at line_size 0 e.line >>= λ line.
    shell_exec line ticks buf m e.console >>= λ s. some (keys, s)

-- One round of the loop of `shell_run`.
pub shell_round : List ℕ → (ticks buf : ℕ) → (line m : Memory) → Console → Option (List ℕ × Console)
shell_round keys ticks buf line m s =
    let shown = show (bytes_of "munux> ") (use_color 11 0 s) in
    let prompted : Console = record shown { sent = shown.sent ++ bytes_of "munux> " } in
    read_line keys (record { line = line; len = 0; console = use_color 7 0 prompted })
    >>= exec_line ticks buf m
