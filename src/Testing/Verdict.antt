-- ===== src/Testing/Verdict.antt =====
-- What the emulator's exit code says of the tests (kernel/src/lib.rs).
use zulu_os.Base.{ℕ, ◌≡◌, refl, ◌∙◌, ap, List, [], ◌∷◌, ◌++◌}
use zulu_os.Testing.{
  QemuExitCode, success, failed, exit_code_number, Host, returned, panicked, Test, serial_print,
  exit_qemu, test_panic_handler, announce, report, run_tests, test_runner,
}

-- Whatever ran before, the test returns, and writes to no port.
abbrev pub Passes : Test → Type 0
Passes t = (h : Host) → (h' : Host) × (t.call h ≡ returned h') × (h'.ports ≡ h.ports)

abbrev pub Panics : Test → Type 0
Panics t =
    (h : Host)
    → (info : List ℕ) × (h' : Host) × (t.call h ≡ panicked info h') × (h'.ports ≡ h.ports)

abbrev pub AllPass : List Test → Type 0
AllPass [] = Unit {0}
AllPass (t ∷ ts) = Passes t × AllPass ts

abbrev pub said : QemuExitCode → Host → List (ℕ × ℕ)
said code h = (0xf4, exit_code_number code) ∷ h.ports

run_tests_pass :
    (tests : List Test) (h : Host) → AllPass tests → (run_tests tests h).ports ≡ said success h
unfolding run_tests exit_qemu announce serial_print report
run_tests_pass [] h pass = refl
run_tests_pass (t ∷ ts) h pass =
    let (h', e, kept) = pass.0 (announce t h) in
    rw (e, run_tests) (run_tests_pass ts (report h') pass.1 ∙ ap (λ l. (0xf4, 0x10) ∷ l) kept)

run_tests_fail :
    (before after : List Test) (t : Test) (h : Host)
    → AllPass before
    → Panics t
    → (run_tests (before ++ t ∷ after) h).ports ≡ said failed h
unfolding run_tests exit_qemu announce serial_print report test_panic_handler
run_tests_fail [] after t h pass bad =
    let (info, h', e, kept) = bad (announce t h) in
    rw (e, run_tests) (ap (λ l. (0xf4, 0x11) ∷ l) kept)
run_tests_fail (first ∷ before) after t h pass bad =
    let (h', e, kept) = pass.0 (announce first h) in
    rw (e, run_tests)
      (run_tests_fail before after t (report h') pass.1 bad ∙ ap (λ l. (0xf4, 0x11) ∷ l) kept)

-- The emulator is told of success by a run of tests that all return, and of failure where one of them
-- panics, whichever tests come after it; it is told once.
pub test_runner_lem :
    (decimal : ℕ → List ℕ) (before after : List Test) (t : Test) (h : Host)
    → AllPass before
    → Panics t
    → ((test_runner decimal before h).ports ≡ (0xf4, 0x10) ∷ h.ports)
      × ((test_runner decimal (before ++ t ∷ after) h).ports ≡ (0xf4, 0x11) ∷ h.ports)
unfolding test_runner serial_print
test_runner_lem decimal before after t h pass bad =
    (run_tests_pass before _ pass, run_tests_fail before after t _ pass bad)

-- The exit writes its code to the emulator's port.
pub exit_qemu_lem : (code : QemuExitCode) (h : Host) → (exit_qemu code h).ports ≡ said code h
unfolding exit_qemu
exit_qemu_lem code h = refl
