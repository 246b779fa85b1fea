-- ===== src/Entry/Returns.antt =====
-- One system call from the library's stub to the kernel's handler and back (syscall/src/lib.rs,
-- kernel/src/syscall/handler.rs).
use zulu_os.Base.{ℕ, ap, ◌+◌, ◌-◌, ◌≤◌, ◌<◌, ◌≡◌, ◌⊎◌, inl, inr, arith, ◌∙◌}
use zulu_os.Entry.{
  rax, rbx, rcx, rdx, rsi, rdi, rbp, rsp, r8, r9, reg_number, Cpu, reg, kernel_rsp_offset, exec,
  run, entering, syscall_handler, stub_start, syscall_n,
}

-- What the System V convention promises of a call: the result in rax, rsp, rbp and rbx kept, and
-- the memory written only in the frames below rsp, down to `bottom`; the code at hand does not
-- touch GS.
pub record IsSysv64 (inner : Cpu → Cpu) (bottom : ℕ) (result : ℕ → ℕ → ℕ → ℕ → ℕ → ℕ → ℕ) (c : Cpu)
    : Type 0 where
  pub value :
      reg rax (inner c)
      ≡ result (reg rdi c) (reg rsi c) (reg rdx c) (reg rcx c) (reg r8 c) (reg r9 c)
  pub keeps_rsp : reg rsp (inner c) ≡ reg rsp c
  pub keeps_rbp : reg rbp (inner c) ≡ reg rbp c
  pub keeps_rbx : reg rbx (inner c) ≡ reg rbx c
  pub keeps_gs : (k : ℕ) → (inner c).gs k ≡ c.gs k
  pub keeps_user_gs : (k : ℕ) → (inner c).kernel_gs k ≡ c.kernel_gs k
  pub frames : (a : ℕ) → (a < bottom) ⊎ (reg rsp c ≤ a) → (inner c).memory a ≡ c.memory a

-- The kernel's stack, while the user program runs.
abbrev pub top : Cpu → ℕ
top c = c.kernel_gs kernel_rsp_offset

module _ (mask unmask : ℕ → ℕ) (inner : Cpu → Cpu) (entry after : ℕ) where
  abbrev pub called : Cpu → Cpu
  called c = syscall_n mask unmask inner entry after c

  -- A system call from user mode returns to its caller: the kernel's handler comes back to the
  -- instruction after the `syscall`, and `syscall_N` to the return address of its caller, with
  -- the result of the inner handler on the six arguments in rax, rsp as after any call, rbp, rbx,
  -- the flags (as `sysretq` restores them) and GS as before, and the kernel's stack pointer saved
  -- again. The inner handler keeps to the System V convention, and the caller's frame does not
  -- lie in the kernel's stack.
  pub syscall_n_returns :
      (c : Cpu) (bottom : ℕ) (result : ℕ → ℕ → ℕ → ℕ → ℕ → ℕ → ℕ)
      → ((d : Cpu) → IsSysv64 inner bottom result d)
      → bottom + 16 ≤ top c
      → 8 ≤ reg rsp c
      → (reg rsp c + 8 ≤ bottom) ⊎ (top c + 8 ≤ reg rsp c)
      → (reg rax (called c)
          ≡ result (reg rdi c) (reg rsi c) (reg rdx c) (reg rcx c) (reg r8 c) (reg r9 c))
        × (reg rsp (called c) ≡ reg rsp c + 8)
        × (reg rbp (called c) ≡ reg rbp c)
        × (reg rbx (called c) ≡ reg rbx c)
        × ((called c).rip ≡ c.memory (reg rsp c))
        × ((called c).rflags ≡ unmask c.rflags)
        × ((called c).kernel_gs kernel_rsp_offset ≡ top c)
        × ((k : ℕ) → (called c).gs k ≡ c.gs k)
        × ((run mask unmask inner entry after syscall_handler
              (run mask unmask inner entry after stub_start c)).rip
            ≡ after)
  unfolding syscall_n run exec reg_number
  syscall_n_returns c bottom result sysv deep room apart =
      let entered : Cpu =
        run mask unmask inner entry after entering
          (run mask unmask inner entry after stub_start c) in
      let v : IsSysv64 inner bottom result entered = sysv entered in
      let saved : reg rbp (inner entered) ≡ reg rsp c - 8 = v.keeps_rbp in
      let pushed : reg rsp (inner entered) ≡ top c - 8 - 8 = v.keeps_rsp in
      let outside : (a : ℕ)
          → reg rsp c ≤ a + 8
          → a ≤ reg rsp c
          → (a < bottom) ⊎ (top c - 8 - 8 ≤ a) =
        λ a lo hi. elim apart [ inl low ↦ inl (omega arith) | inr high ↦ inr (omega arith) ] in
      let restored : reg rsp c - 8 + 8 ≡ reg rsp c = omega arith in
      (
        v.value,
        omega (arith, saved),
        ap (inner entered).memory saved
            ∙ v.frames (reg rsp c - 8) (outside (reg rsp c - 8) (omega arith) (omega arith))
            ∙ ground arith,
        v.keeps_rbx,
        ap (λ a. (inner entered).memory (a + 8)) saved
            ∙ v.frames (reg rsp c - 8 + 8) (outside (reg rsp c - 8 + 8) (omega arith) (omega arith))
            ∙ (ap entered.memory restored ∙ ground arith),
        ap (λ a. unmask ((inner entered).memory a)) pushed
            ∙ ap unmask (v.frames (top c - 8 - 8) (inr (omega arith)) ∙ ground arith),
        omega (arith, pushed),
        v.keeps_user_gs,
        ap (λ a. (inner entered).memory (a + 8)) pushed
            ∙ v.frames (top c - 8 - 8 + 8) (inr (omega arith))
            ∙ ground arith,
      )
