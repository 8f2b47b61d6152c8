-- ===== src/Interrupts/Idt/Exceptions.antt =====
-- `isr_handler`, the end of every exception of the processor: a panic with its name.
use munux.Common.{ℕ, ◌≤◌, ◌≡◌, refl, ◌∙◌, some, List, [], ◌∷◌, ltb, if◌then◌else◌, length, get_or}
use munux.Common.Text.{bytes_of}
use munux.Kernel.Terminal.{Terminal, vga_entry_color, setcolor}
use munux.Kernel.Terminal.Write.{IsValid, setcolor-IsValid, write_safe}
use munux.Kernel.Panic.{kernel_panic}

pub exception_messages : List (List ℕ)
exception_messages =
    bytes_of "Division By Zero"
    ∷ bytes_of "Debug"
    ∷ bytes_of "Non Maskable Interrupt"
    ∷ bytes_of "Breakpoint"
    ∷ bytes_of "Into Detected Overflow"
    ∷ bytes_of "Out of Bounds"
    ∷ bytes_of "Invalid Opcode"
    ∷ bytes_of "No Coprocessor"
    ∷ bytes_of "Double Fault"
    ∷ bytes_of "Coprocessor Segment Overrun"
    ∷ bytes_of "Bad TSS"
    ∷ bytes_of "Segment Not Present"
    ∷ bytes_of "Stack Fault"
    ∷ bytes_of "General Protection Fault"
    ∷ bytes_of "Page Fault"
    ∷ bytes_of "Unknown Interrupt"
    ∷ bytes_of "Coprocessor Fault"
    ∷ bytes_of "Alignment Check"
    ∷ bytes_of "Machine Check"
    ∷ bytes_of "Reserved"
    ∷ bytes_of "Reserved"
    ∷ bytes_of "Reserved"
    ∷ bytes_of "Reserved"
    ∷ bytes_of "Reserved"
    ∷ bytes_of "Reserved"
    ∷ bytes_of "Reserved"
    ∷ bytes_of "Reserved"
    ∷ bytes_of "Reserved"
    ∷ bytes_of "Reserved"
    ∷ bytes_of "Reserved"
    ∷ bytes_of "Reserved"
    ∷ bytes_of "Reserved"
    ∷ []

-- The name that `isr_handler` looks up; `EXCEPTION_COUNT` is the length of the table.
pub exception_name : ℕ → List ℕ
exception_name int_no =
    if ltb int_no (length exception_messages)
    then get_or exception_messages int_no []
    else bytes_of "Unknown Interrupt"

pub isr_handler : ℕ → Terminal → Terminal
isr_handler int_no t = kernel_panic (some (exception_name int_no)) t

exception_count : length exception_messages ≡ 32
unfolding exception_messages
exception_count = refl

-- From a cursor on the screen the panic of any exception leaves it there, and writes no cell that is
-- not of the screen.
pub isr_handler_safe :
    (int_no : ℕ) {t : Terminal}
    → IsValid t
    → IsValid (isr_handler int_no t)
      × ((q : ℕ) → 2000 ≤ q → (isr_handler int_no t).video q ≡ t.video q)
unfolding isr_handler kernel_panic setcolor
isr_handler_safe int_no v =
    let color = vga_entry_color 15 4 in
    let (v1, s1) = write_safe (bytes_of "\n*** KERNEL PANIC ***\n") (setcolor-IsValid color v) in
    let (v2, s2) = write_safe (exception_name int_no) v1 in
    let (v3, s3) = write_safe (bytes_of "\n") v2 in (v3, λ q h. s3 q h ∙ s2 q h ∙ s1 q h)
