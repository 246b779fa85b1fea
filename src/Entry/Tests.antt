-- ===== src/Entry/Tests.antt =====
-- A system call at a concrete state of the processor.
use zulu_os.Base.{ℕ, ◌+◌, ◌≡◌, refl, inl, arith, true, ◌==◌, if◌then◌else◌}
use zulu_os.Syscall.Samples.{machine}
use zulu_os.Entry.{
  rax, rbx, rcx, rdx, rsi, rdi, rsp, rbp, r8, r9, r10, r11, reg_number, Cpu, reg, write_reg, run,
  entering, syscall_handler, stub_start, syscall_n,
}
use zulu_os.Entry.Returns.{top, called, syscall_n_returns}
use zulu_os.Base.{false, Bool, Option, none, some}
use zulu_os.Base.Bits.{digit, and_not, digit-and_not}
use zulu_os.Entry.Setup.{Registers, syscall_init}
use zulu_os.Entry.Setup.{ThreadData, non_zero}
use zulu_os.Entry.Setup.Access.{
  Access, Masking, thread_of, with_thread_data, with_thread_data_twice,
}
use zulu_os.Entry.Setup.Masked.{syscall_init_masks}
use zulu_os.Entry.Session.{Reach, here, next_step, calls, computes, next_call_returns}
use zulu_os.Entry.Breakpoint.{handled_break, breakpoint_handler_lem}
use zulu_os.Entry.Samples.{answers, answers-IsSysv64}

-- A user program with its stack at 0x1000, a kernel with its stack up to 0x9000.
abbrev in_user : Cpu
in_user = record {
  regs = λ r. if r == 7 then 0x1000 else r + 100;
  memory = λ a. a + 5;
  gs = λ k. 0;
  kernel_gs = λ k. 0x9000;
  rflags = 0x202;
  rip = 0x7000;
}

abbrev sum_of : ℕ → ℕ → ℕ → ℕ → ℕ → ℕ → ℕ
sum_of a b c d e f = a + b + c + d + e + f

abbrev after_call : Cpu
after_call = syscall_n (λ f. f) (λ f. f) (answers sum_of) 0x8000 0x7002 in_user

syscall_n_returns_example :
    (reg rax after_call ≡ 631)
    × (reg rsp after_call ≡ 0x1008)
    × (reg rbp after_call ≡ 106)
    × (reg rbx after_call ≡ 101)
    × (after_call.rip ≡ 0x1005)
    × (after_call.rflags ≡ 0x202)
    × (after_call.kernel_gs 0 ≡ 0x9000)
    × ((k : ℕ) → after_call.gs k ≡ 0)
    × ((run
          (λ f. f)
          (λ f. f)
          (answers sum_of)
          0x8000
          0x7002
          syscall_handler
          (run (λ f. f) (λ f. f) (answers sum_of) 0x8000 0x7002 stub_start in_user)).rip
        ≡ 0x7002)
unfolding reg_number
syscall_n_returns_example =
    syscall_n_returns (λ f. f) (λ f. f) (answers sum_of) 0x8000 0x7002 in_user 0x8000 sum_of
      (answers-IsSysv64 sum_of 0x8000) (omega arith) (omega arith) (inl (omega arith))

-- A breakpoint that a kernel function hits.
breakpoint_handler_lem_example :
    ((handled_break (λ f. f) (λ f. f) (answers (λ a b c d e f. a)) 1 2 in_user).rip
      ≡ in_user.memory 0x1000)
    × ((handled_break (λ f. f) (λ f. f) (answers (λ a b c d e f. a)) 1 2 in_user).rflags
        ≡ in_user.memory (0x1000 + 16))
    × (reg rsp (handled_break (λ f. f) (λ f. f) (answers (λ a b c d e f. a)) 1 2 in_user)
        ≡ in_user.memory (0x1000 + 24))
    × (reg r10 (handled_break (λ f. f) (λ f. f) (answers (λ a b c d e f. a)) 1 2 in_user)
        ≡ reg r10 in_user)
    × (reg r11 (handled_break (λ f. f) (λ f. f) (answers (λ a b c d e f. a)) 1 2 in_user)
        ≡ reg r11 in_user)
    × (reg rbx (handled_break (λ f. f) (λ f. f) (answers (λ a b c d e f. a)) 1 2 in_user)
        ≡ reg rbx in_user)
    × (reg rbp (handled_break (λ f. f) (λ f. f) (answers (λ a b c d e f. a)) 1 2 in_user)
        ≡ reg rbp in_user)
unfolding reg_number
breakpoint_handler_lem_example =
    breakpoint_handler_lem (λ f. f) (λ f. f) (answers (λ a b c d e f. a)) 1 2 in_user 0
      (λ a b c d e f. a) (answers-IsSysv64 (λ a b c d e f. a) 0) (omega arith)

cleared : (fmask flags k : ℕ) → digit k fmask ≡ 1 → digit k (and_not flags fmask) ≡ 0
cleared fmask flags k h = omega (arith, digit-and_not k flags fmask, h)

abbrev reset : Registers
reset = record { sfmask = 0x100; efer = 0x500; cr4 = 0x20; lstar = 0 }

syscall_init_masks_example :
    (r' : Registers) × (syscall_init machine 0x201000 reset ≡ some r')
    × (r'.lstar ≡ 0x201000)
    × (digit 0 r'.efer ≡ 1)
    × (digit 16 r'.cr4 ≡ 1)
    × ((k : ℕ) → digit k 0x100 ≡ 1 → digit k r'.sfmask ≡ 1)
    × (digit 9
          (run
            (λ flags. and_not flags r'.sfmask)
            (λ f. f)
            (λ c. c)
            r'.lstar
            0x7002
            entering
            (run
              (λ flags. and_not flags r'.sfmask)
              (λ f. f)
              (λ c. c)
              r'.lstar
              0x7002
              stub_start
              in_user)).rflags
        ≡ 0)
syscall_init_masks_example =
    syscall_init_masks machine 0x201000 reset (λ fmask flags. and_not flags fmask) (λ f. f) (λ c. c)
      0x7002 in_user (omega arith) cleared

-- After one call the program goes on at its return address with another stack.
abbrev later : Cpu
later = write_reg rsp 0x2000 after_call

later_reached : Reach (λ f. f) (λ f. f) (answers sum_of) 0x8000 0x7002 0x8000 in_user later
unfolding reg_number
later_reached =
    next_step (next_step here (calls (omega arith, inl (omega arith)) refl)) (computes (λ k. refl))

next_call_returns_example :
    (top later ≡ 0x9000)
    × (reg rax (called (λ f. f) (λ f. f) (answers sum_of) 0x8000 0x7002 later)
        ≡ sum_of
            (reg rdi later)
            (reg rsi later)
            (reg rdx later)
            (reg rcx later)
            (reg r8 later)
            (reg r9 later))
    × (reg rsp (called (λ f. f) (λ f. f) (answers sum_of) 0x8000 0x7002 later) ≡ 0x2008)
    × ((called (λ f. f) (λ f. f) (answers sum_of) 0x8000 0x7002 later).rip ≡ later.memory 0x2000)
    × (top (called (λ f. f) (λ f. f) (answers sum_of) 0x8000 0x7002 later) ≡ 0x9000)
unfolding reg_number
next_call_returns_example =
    next_call_returns (λ f. f) (λ f. f) (answers sum_of) 0x8000 0x7002 0x8000 sum_of in_user later
      (answers-IsSysv64 sum_of 0x8000) (omega arith) later_reached (omega arith, inl (omega arith))

unfoldable masked_run : {R : Type 0} → (Access → Option (R × Access)) → Access → Option (R × Access)
masked_run f c = elim (f (record c { interrupts = false })) [
  | none ↦ none
  | some (r, d) ↦ some (r, record d { interrupts = c.interrupts })
]

masked_run-none :
    {R : Type 0} (f : Access → Option (R × Access)) (c : Access)
    → f (record c { interrupts = false }) ≡ none
    → masked_run f c ≡ none
unfolding masked_run
masked_run-none f c e = rw (e, masked_run) refl

masked_run-some :
    {R : Type 0} (f : Access → Option (R × Access)) (c d : Access) (r : R)
    → f (record c { interrupts = false }) ≡ some (r, d)
    → masked_run f c ≡ some (r, record d { interrupts = c.interrupts })
unfolding masked_run
masked_run-some f c d r e = rw (e, masked_run) refl

abbrev masking : Masking
masking = record {
  without_interrupts = λ f c. masked_run f c;
  without_interrupts_none = λ f c e. masked_run-none f c e;
  without_interrupts_some = λ f c d r e. masked_run-some f c d r e;
}

abbrev at_box : Access
at_box = record { gs_base = 0x4444_4444_0000; gs = λ k. 0; interrupts = true }

-- The kernel's stack pointer is stored, and then taken.
abbrev stores_rsp : Bool → ThreadData → Option ℕ × ThreadData
stores_rsp on t = (t.kernel_rsp, record t { kernel_rsp = some 0x9000 })

abbrev takes_rsp : Bool → ThreadData → Option ℕ × ThreadData
takes_rsp on t = (t.kernel_rsp, record t { kernel_rsp = none })

with_thread_data_twice_example :
    (d : Access) × (e : Access) × (with_thread_data masking true stores_rsp at_box ≡ some (none, d))
    × (with_thread_data masking true takes_rsp d ≡ some (some 0x9000, e))
    × (d.interrupts ≡ true)
    × (e.interrupts ≡ true)
unfolding thread_of non_zero
with_thread_data_twice_example =
    with_thread_data_twice masking true stores_rsp takes_rsp at_box (omega arith) (omega arith) tt
