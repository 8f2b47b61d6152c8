-- ===== src/Kernel/Shell/Tests.antt =====
-- Runs of the shell, and its theorems at concrete keys.
use munux.Common.{◌>>=◌, ℕ, ◌≡◌, ◌≢◌, ◌⊎◌, refl, some, List, [], ◌∷◌, ◌++◌, arith}
use munux.Common.Text.{bytes_of}
use munux.Common.Memory.{Memory}
use munux.Kernel.Terminal.{clear}
use munux.Kernel.Terminal.Write.{IsValid}
use munux.Kernel.Console.{Console, klog}
use munux.Kernel.Shell.{shell_exec, shell_round}
use munux.Kernel.Shell.Line.{edited_all}
use munux.Kernel.Shell.Round.{shell_round_lem}
use munux.Kernel.Shell.Answers.{Answers, shell_exec-Answers}

abbrev blank : Memory
blank q = 0

abbrev dark : Console
dark = record { terminal = record { video = blank; row = 24; column = 79; color = 7 }; sent = [] }

-- `helo`, a backspace, `p`.
abbrev typed : List ℕ
typed = bytes_of "helo" ++ 8 ∷ b'p' ∷ []

typed_text : edited_all typed [] ≡ bytes_of "help"
typed_text = refl

shell_round_lem_example :
    (s : Console) × IsValid s.terminal
    × (shell_round (typed ++ b'\n' ∷ []) 5 0 blank blank dark
        ≡ (shell_exec (bytes_of "help") 5 0 blank s >>= λ r. some ([], r)))
shell_round_lem_example = shell_round_lem typed [] 5 0 blank blank dark (ground arith) (omega arith)

shell_exec-Answers_example :
    ((bytes_of "ticks" ≡ bytes_of "clear")
      × (shell_exec (bytes_of "ticks") 1234 300 blank dark
          ≡ some (record dark { terminal = clear dark.terminal })))
    ⊎ ((bytes_of "ticks" ≢ bytes_of "clear")
        × (answer : List ℕ) × Answers (bytes_of "ticks") 1234 answer
        × (shell_exec (bytes_of "ticks") 1234 300 blank dark ≡ some (klog answer dark)))
shell_exec-Answers_example =
    shell_exec-Answers (bytes_of "ticks") 1234 300 blank dark (ground arith) (omega arith)
