-- ===== src/Entry/Breakpoint.antt =====
-- The naked function `breakpoint_handler` of kernel/src/interrupts.rs.
use zulu_os.Base.{ℕ, ap, ◌+◌, ◌-◌, ◌≤◌, ◌≡◌, inr, arith, ◌∙◌}
use zulu_os.Entry.{
  rbp, rbx, rsp, r10, r11, reg_number, Cpu, reg, exec, run, push, breakpoint_handler,
}
use zulu_os.Entry.Returns.{IsSysv64}
use zulu_os.Base.{[], ◌∷◌}

module _ (mask unmask : ℕ → ℕ) (inner : Cpu → Cpu) (entry after : ℕ) where
  abbrev pub handled_break : Cpu → Cpu
  handled_break c = run mask unmask inner entry after breakpoint_handler c

  -- An interrupted program goes on where it was: `breakpoint_handler`, entered on a frame of
  -- return address, code segment, flags, stack pointer and stack segment, takes the program's
  -- rip, flags and rsp from it, and leaves r10, r11, rbx and rbp as they were. The function that
  -- it calls keeps to the System V convention, and the stack has room for two words above the
  -- frames of that function.
  pub breakpoint_handler_lem :
      (c : Cpu) (bottom : ℕ) (result : ℕ → ℕ → ℕ → ℕ → ℕ → ℕ → ℕ)
      → ((d : Cpu) → IsSysv64 inner bottom result d)
      → bottom + 16 ≤ reg rsp c
      → ((handled_break c).rip ≡ c.memory (reg rsp c))
        × ((handled_break c).rflags ≡ c.memory (reg rsp c + 16))
        × (reg rsp (handled_break c) ≡ c.memory (reg rsp c + 24))
        × (reg r10 (handled_break c) ≡ reg r10 c)
        × (reg r11 (handled_break c) ≡ reg r11 c)
        × (reg rbx (handled_break c) ≡ reg rbx c)
        × (reg rbp (handled_break c) ≡ reg rbp c)
  unfolding run exec reg_number
  breakpoint_handler_lem c bottom result sysv deep =
      let entered : Cpu = run mask unmask inner entry after (push r10 ∷ push r11 ∷ []) c in
      let v : IsSysv64 inner bottom result entered = sysv entered in
      let pushed : reg rsp (inner entered) ≡ reg rsp c - 8 - 8 = v.keeps_rsp in
      let back = λ (x a : ℕ) (e : x ≡ a) (h : reg rsp c - 8 - 8 ≤ a).
        ap (inner entered).memory e ∙ v.frames a (inr h) in
      let popped : reg rsp (inner entered) + 8 + 8 ≡ reg rsp c = omega (arith, pushed) in
      (
        back (reg rsp (inner entered) + 8 + 8) (reg rsp c) popped (omega arith) ∙ ground arith,
        back (reg rsp (inner entered) + 8 + 8 + 16) (reg rsp c + 16) (omega (arith, popped))
              (omega arith)
            ∙ ground arith,
        back (reg rsp (inner entered) + 8 + 8 + 24) (reg rsp c + 24) (omega (arith, popped))
              (omega arith)
            ∙ ground arith,
        back (reg rsp (inner entered) + 8) (reg rsp c - 8) (omega (arith, pushed)) (omega arith)
            ∙ ground arith,
        back (reg rsp (inner entered)) (reg rsp c - 8 - 8) pushed (omega arith) ∙ ground arith,
        v.keeps_rbx,
        v.keeps_rbp,
      )
