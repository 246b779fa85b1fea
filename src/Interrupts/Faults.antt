-- ===== src/Interrupts/Faults.antt =====
-- The handlers of faults of kernel/src/interrupts.rs, its `my_write`, and the kernel's own panic
-- (kernel/src/main.rs): what they print, and that they stop. A panic inside a panic is `none`.
use zulu_os.Base.{
  ℕ, ◌≡◌, refl, ◌∙◌, Bool, true, List, [], ◌∷◌, ◌++◌, Option, none, some, ◌>>=◌, map, if◌then◌else◌,
}
use zulu_os.Vga.{Volatile, Writer, write_string, shown_byte}
use zulu_os.Vga.Document.{Document, Shows, type_bytes}
use zulu_os.Vga.Refine.{print_bytes_refines, write_string-eq-print_bytes}
use zulu_os.Testing.Verdict.{said, exit_qemu_lem}
use zulu_os.Testing.{Host, failed, exit_qemu}

-- How a core ends: in `loop {}` or `hlt_loop`, or by the emulator's exit, after which it halts as well.
pub data Fate (W : Type 0) : Type 0 where
  looping : W → Fate W
  exited : W → Host → Fate W

-- "got divide error!: ", "DOUBLE FAULT. Code: " and "PAGE FAULT. Code: "
abbrev pub divide_error_text : List ℕ
divide_error_text =
    b'g' ∷ b'o' ∷ b't' ∷ b' ' ∷ b'd' ∷ b'i' ∷ b'v' ∷ b'i' ∷ b'd' ∷ b'e' ∷ b' ' ∷ b'e' ∷ b'r' ∷ b'r'
    ∷ b'o' ∷ b'r' ∷ b'!' ∷ b':' ∷ b' ' ∷ []

abbrev pub double_fault_text : List ℕ
double_fault_text =
    b'D' ∷ b'O' ∷ b'U' ∷ b'B' ∷ b'L' ∷ b'E' ∷ b' ' ∷ b'F' ∷ b'A' ∷ b'U' ∷ b'L' ∷ b'T' ∷ b'.' ∷ b' '
    ∷ b'C' ∷ b'o' ∷ b'd' ∷ b'e' ∷ b':' ∷ b' ' ∷ []

abbrev pub page_fault_text : List ℕ
page_fault_text =
    b'P' ∷ b'A' ∷ b'G' ∷ b'E' ∷ b' ' ∷ b'F' ∷ b'A' ∷ b'U' ∷ b'L' ∷ b'T' ∷ b'.' ∷ b' ' ∷ b'C' ∷ b'o'
    ∷ b'd' ∷ b'e' ∷ b':' ∷ b' ' ∷ []

abbrev pub top_of_stack_text : List ℕ
top_of_stack_text =
    b'\n' ∷ b't' ∷ b'o' ∷ b'p' ∷ b' ' ∷ b'o' ∷ b'f' ∷ b' ' ∷ b's' ∷ b't' ∷ b'a' ∷ b'c' ∷ b'k' ∷ b':'
    ∷ b' ' ∷ b'0' ∷ b'x' ∷ []

-- How core::fmt writes numbers, the frame of an interrupt, the code of a page fault, and a panic's message
-- with the place where it was raised.
pub record Formats (Frame : Type 0) : Type 0 where
  pub decimal : ℕ → List ℕ
  pub upper_hex : ℕ → List ℕ
  pub debug : Frame → List ℕ
  pub debug_pretty : Frame → List ℕ
  pub debug_code : ℕ → List ℕ
  pub panic_info : List ℕ → List ℕ

module _ (V : Volatile) (Frame : Type 0) (T : Formats Frame) where
  open V use {Cell}
  open T use {decimal, upper_hex, debug, debug_pretty, debug_code, panic_info}

  -- `my_write`, for the bytes of its argument; `valid` is `from_utf8`.
  pub my_write : (List ℕ → Bool) → List ℕ → Writer Cell → Option (Writer Cell)
  my_write valid bytes w = if valid bytes then write_string V bytes w else none

  pub divide_error_handler_fn : Frame → Writer Cell → Option (Fate (Writer Cell))
  divide_error_handler_fn frame w = do
    w' ← write_string V (divide_error_text ++ debug_pretty frame ++ (b'\n' ∷ [])) w
    some (looping w')

  pub double_fault_handler_fn : Frame → ℕ → Host → Writer Cell → Option (Fate (Writer Cell))
  double_fault_handler_fn frame code host w = do
    w' ←
        write_string V
          (double_fault_text ++ decimal code ++ (b'\n' ∷ []) ++ debug_pretty frame ++ (b'\n' ∷ []))
          w
    some (exited w' (exit_qemu failed host))

  -- `panic` of main.rs
  pub kernel_panic : List ℕ → Writer Cell → Option (Fate (Writer Cell))
  kernel_panic message w = do
    w' ← write_string V (panic_info message ++ (b'\n' ∷ [])) w
    some (looping w')

  pub page_fault_message : Frame → ℕ → ℕ → List ℕ
  page_fault_message frame code top_of_stack =
      page_fault_text
      ++ debug_code code
      ++ (b'\n' ∷ [])
      ++ debug frame
      ++ top_of_stack_text
      ++ upper_hex top_of_stack

  pub page_fault_handler_fn : Frame → ℕ → ℕ → Writer Cell → Option (Fate (Writer Cell))
  unfolding kernel_panic page_fault_message
  page_fault_handler_fn frame code top_of_stack w =
      kernel_panic (page_fault_message frame code top_of_stack) w

  printed :
      (text : List ℕ) (w : Writer Cell) (d : Document)
      → Shows V w d
      → (w' : Writer Cell) × (write_string V text w ≡ some w')
        × Shows V w' (type_bytes w.color_code (map shown_byte text) d)
  printed text w d s =
      let (w', e, c, s') = print_bytes_refines V (map shown_byte text) w d s in
      (w', write_string-eq-print_bytes V text w ∙ e, s')

  -- A fault ends on the core where it happens, with its report on the screen: none of the three handlers
  -- returns or panics while it prints. A divide error and a page fault stop in a loop, a double fault
  -- tells the emulator of a failure. A breakpoint prints the text that it is given, if that is UTF-8.
  pub faults_lem :
      (valid : List ℕ → Bool) (frame : Frame) (code top_of_stack : ℕ) (host : Host) (text : List ℕ)
      (w : Writer Cell) (d : Document)
      → Shows V w d
      → valid text ≡ true
      → ((w1 : Writer Cell) × (divide_error_handler_fn frame w ≡ some (looping w1))
          × Shows V w1 (
              type_bytes w.color_code
                (map shown_byte (divide_error_text ++ debug_pretty frame ++ (b'\n' ∷ [])))
                d))
        × ((w2 : Writer Cell) × (host' : Host) × (double_fault_handler_fn frame code host w
              ≡ some (exited w2 host'))
            × (host'.ports ≡ said failed host)
            × Shows V w2 (
                type_bytes w.color_code
                  (map shown_byte (
                    double_fault_text
                    ++ decimal code
                    ++ (b'\n' ∷ [])
                    ++ debug_pretty frame
                    ++ (b'\n' ∷ [])))
                  d))
        × ((w3 : Writer Cell) × (page_fault_handler_fn frame code top_of_stack w
              ≡ some (looping w3))
            × Shows V w3 (
                type_bytes w.color_code
                  (map shown_byte
                    (panic_info (page_fault_message frame code top_of_stack) ++ (b'\n' ∷ [])))
                  d))
        × ((w4 : Writer Cell) × (my_write valid text w ≡ some w4)
            × Shows V w4 (type_bytes w.color_code (map shown_byte text) d))
  unfolding divide_error_handler_fn double_fault_handler_fn page_fault_handler_fn kernel_panic
      my_write
  faults_lem valid frame code top_of_stack host text w d s utf8 =
      let (w1, e1, s1) = printed (divide_error_text ++ debug_pretty frame ++ (b'\n' ∷ [])) w d s in
      let (w2, e2, s2) =
        printed
          (double_fault_text ++ decimal code ++ (b'\n' ∷ []) ++ debug_pretty frame ++ (b'\n' ∷ []))
          w d s in
      let (w3, e3, s3) =
        printed (panic_info (page_fault_message frame code top_of_stack) ++ (b'\n' ∷ [])) w d s in
      let (w4, e4, s4) = printed text w d s in
      (
        (w1, rw e1 refl, s1),
        (w2, exit_qemu failed host, rw e2 refl, exit_qemu_lem failed host, s2),
        (w3, rw e3 refl, s3),
        (w4, rw utf8 e4, s4),
      )
