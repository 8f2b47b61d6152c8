-- ===== src/Kernel/Shell/Exec.antt =====
-- Which command a line runs.
use mathlib.Core.Path.{subst, subst⁻¹}
use munux.Common.{
  ℕ, zero, suc, ◌≡◌, ◌≢◌, ◌↔◌, refl, inl, inr, true, false, some, List, [], ◌∷◌, ◌++◌, take, arith,
  Bool-cases,
}
use munux.Common.Text.{bytes_of}
use munux.Common.Memory.{Memory}
use munux.Common.Int.{◌-ℤ◌, is_zero, is_zero_iff}
use munux.Libk.Strings.{strcmp, strncmp}
use munux.Libk.Strings.Order.{IsText, strcmp_iff, strncmp-strcmp}
use munux.Kernel.Console.{Console, klog, kprintf}
use munux.Kernel.Shell.{shell_exec, help_text, about_text, kernel_text}
use munux.Kernel.Terminal.{clear}
use munux.Libk.Printf.{word}

-- The test `strcmp(line, name) == 0`.
named :
    (line name : List ℕ)
    → IsText line
    → IsText name
    → line ≢ name
    → is_zero (strcmp line name) ≡ false
named line name tl tn ne = elim (Bool-cases (is_zero (strcmp line name))) [
  | inl yes_zero ↦
      absurd (ne ((strcmp_iff line name tl tn).0 ((is_zero_iff (strcmp line name)).0 yes_zero)))
  | inr no_zero ↦ no_zero
]

pub IsText-take : (n : ℕ) (text : List ℕ) → IsText text → IsText (take n text)
IsText-take zero text t = tt
IsText-take (suc n) [] t = tt
IsText-take (suc n) (c ∷ text) t = (t.0, IsText-take n text t.1)

echo-IsText : IsText (bytes_of "echo ")
echo-IsText = ground arith

-- The test `strncmp(line, "echo ", 5) == 0`.
echoes :
    (line : List ℕ)
    → IsText line
    → (is_zero (strncmp line (bytes_of "echo ") 5) ≡ true) ↔ (take 5 line ≡ bytes_of "echo ")
echoes line t =
    let same = strncmp-strcmp line (bytes_of "echo ") 5 in
    let decided = strcmp_iff (take 5 line) (bytes_of "echo ") (IsText-take 5 line t) echo-IsText in
    (
      λ h. decided.0 ((is_zero_iff _).0 (subst (λ z. is_zero z ≡ true) same h)),
      λ e. subst⁻¹ (λ z. is_zero z ≡ true) same ((is_zero_iff _).1 (decided.1 e)),
    )

-- A line that is none of the commands.
pub record IsUnknown (line : List ℕ) : Type 0 where
  pub not_empty : line ≢ []
  pub not_help : line ≢ bytes_of "help"
  pub not_clear : line ≢ bytes_of "clear"
  pub not_about : line ≢ bytes_of "about"
  pub not_ticks : line ≢ bytes_of "ticks"
  pub not_echo : take 5 line ≢ bytes_of "echo "

unknown :
    (line : List ℕ) (ticks buf : ℕ) (m : Memory) (s : Console)
    → IsText line
    → IsUnknown line
    → shell_exec line ticks buf m s
      ≡ some (klog (bytes_of "\n") (klog line (klog (bytes_of "comando nao encontrado: ") s)))
unfolding shell_exec
unknown [] ticks buf m s t u = absurd (u.not_empty refl)
unknown (c ∷ rest) ticks buf m s t u =
    let line = c ∷ rest in
    let no_echo : is_zero (strncmp line (bytes_of "echo ") 5) ≡ false = ground (
      arith,
      Bool-cases (is_zero (strncmp line (bytes_of "echo ") 5)),
      u.not_echo,
      (echoes line t).0,
    ) in
    rw
      (
        named line (bytes_of "help") t (ground arith) u.not_help,
        named line (bytes_of "clear") t (ground arith) u.not_clear,
        named line (bytes_of "about") t (ground arith) u.not_about,
        named line (bytes_of "ticks") t (ground arith) u.not_ticks,
        no_echo,
      )
      refl

-- `shell_exec` on a line of bytes other than NUL: an empty one does nothing; `help` and `about` log
-- their texts; `clear` clears the screen; `ticks` is a call of `kprintf`; `echo ` and a text logs the text
-- and a line feed; and a line that is none of these logs that the command is unknown, and the line.
pub shell_exec_lem :
    (line : List ℕ) (ticks buf : ℕ) (m : Memory) (s : Console)
    → IsText line
    → (line ≡ [] → shell_exec line ticks buf m s ≡ some s)
      × (line ≡ bytes_of "help" → shell_exec line ticks buf m s ≡ some (klog help_text s))
      × (line ≡ bytes_of "about"
          → shell_exec line ticks buf m s ≡ some (klog kernel_text (klog about_text s)))
      × (line ≡ bytes_of "clear"
          → shell_exec line ticks buf m s ≡ some (record s { terminal = clear s.terminal }))
      × (line ≡ bytes_of "ticks"
          → shell_exec line ticks buf m s
            ≡ kprintf buf (bytes_of "Ticks do timer desde o boot: %u\n") (word ticks ∷ []) m s)
      × ((text : List ℕ)
          → line ≡ bytes_of "echo " ++ text
          → shell_exec line ticks buf m s ≡ some (klog (bytes_of "\n") (klog text s)))
      × (IsUnknown line
          → shell_exec line ticks buf m s
            ≡ some
                (klog (bytes_of "\n") (klog line (klog (bytes_of "comando nao encontrado: ") s))))
unfolding shell_exec strcmp strncmp ◌-ℤ◌
shell_exec_lem line ticks buf m s t = (
  λ e. rw e refl,
  λ e. rw e refl,
  λ e. rw e refl,
  λ e. rw e refl,
  λ e. rw e refl,
  λ text e. rw e refl,
  unknown line ticks buf m s t,
)
