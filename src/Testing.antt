-- ===== src/Testing.antt =====
-- The test runner of kernel/src/lib.rs, and what it prints through kernel/src/serial.rs.
pub mod Verdict
use zulu_os.Base.{ℕ, List, [], ◌∷◌, ◌++◌, length}

pub data QemuExitCode : Type 0 where
  success failed : QemuExitCode

-- `as u32`
unfoldable pub exit_code_number : QemuExitCode → ℕ
exit_code_number success = 0x10
exit_code_number failed = 0x11

-- What the emulator has seen: the bytes at the serial port, and the writes to other ports, newest first.
pub record Host : Type 0 where
  pub serial : List ℕ
  pub ports : List (ℕ × ℕ)

-- How a test ends: it returns, or it panics with a message.
pub data Ran : Type 0 where
  returned : Host → Ran
  panicked : List ℕ → Host → Ran

-- A test: its type's name, and the call of it.
pub record Test : Type 0 where
  pub type_name : List ℕ
  pub call : Host → Ran

-- `_print` of serial.rs: the port takes every byte.
pub serial_print : List ℕ → Host → Host
serial_print text h = record h { serial = h.serial ++ text }

-- `exit_qemu` writes to the port and halts for ever: what it leaves.
pub exit_qemu : QemuExitCode → Host → Host
unfolding exit_code_number
exit_qemu exit_code h = record h { ports = (0xf4, exit_code_number exit_code) ∷ h.ports }

pub test_panic_handler : List ℕ → Host → Host
unfolding serial_print exit_qemu
test_panic_handler info h =
    let h1 =
      serial_print (b'[' ∷ b'f' ∷ b'a' ∷ b'i' ∷ b'l' ∷ b'e' ∷ b'd' ∷ b']' ∷ b'\n' ∷ b'\n' ∷ []) h in
    let h2 =
      serial_print
        ((b'E' ∷ b'r' ∷ b'r' ∷ b'o' ∷ b'r' ∷ b':' ∷ b' ' ∷ []) ++ info ++ (b'\n' ∷ b'\n' ∷ []))
        h1 in
    exit_qemu failed h2

-- `Testable::run` up to the call, and after it
pub announce : Test → Host → Host
unfolding serial_print
announce test h = serial_print (test.type_name ++ (b'.' ∷ b'.' ∷ b'.' ∷ b'\t' ∷ [])) h

pub report : Host → Host
unfolding serial_print
report h = serial_print (b'[' ∷ b'o' ∷ b'k' ∷ b']' ∷ b'\n' ∷ []) h

-- The loop of `test_runner` and its end; a test that panics ends in the panic handler.
pub run_tests : List Test → Host → Host
unfolding exit_qemu test_panic_handler announce report
run_tests [] h = exit_qemu success h
run_tests (test ∷ tests) h = elim (test.call (announce test h)) [
  | returned h' ↦ run_tests tests (report h')
  | panicked info h' ↦ test_panic_handler info h'
]

-- `test_runner`; `decimal` is how a number is printed.
pub test_runner : (ℕ → List ℕ) → List Test → Host → Host
unfolding serial_print run_tests
test_runner decimal tests h = run_tests tests (
    serial_print
      ((b'R' ∷ b'u' ∷ b'n' ∷ b'n' ∷ b'i' ∷ b'n' ∷ b'g' ∷ b' ' ∷ [])
        ++ decimal (length tests)
        ++ (b' ' ∷ b't' ∷ b'e' ∷ b's' ∷ b't' ∷ b's' ∷ b'\n' ∷ []))
      h)
