-- ===== src/Entry/Session.antt =====
-- A user program that makes one system call after the other (syscall/src/lib.rs,
-- kernel/src/syscall/handler.rs).
use zulu_os.Base.{ℕ, ◌+◌, ◌≤◌, ◌≡◌, ◌⊎◌, refl, ◌∙◌, ap, arith}
use zulu_os.Entry.{rax, rsp, rdi, rsi, rdx, rcx, r8, r9, Cpu, reg}
use zulu_os.Entry.Returns.{IsSysv64, top, called, syscall_n_returns}

module _ (mask unmask : ℕ → ℕ) (inner : Cpu → Cpu) (entry after bottom : ℕ) where
  -- The caller's frame does not lie in the kernel's stack.
  abbrev pub Apart : Cpu → Type 0
  Apart c = (8 ≤ reg rsp c) × ((reg rsp c + 8 ≤ bottom) ⊎ (top c + 8 ≤ reg rsp c))

  -- The program computes: in user mode all may change but the GS base that is swapped out. Or it makes a
  -- system call.
  pub data Step (c d : Cpu) : Type 0 where
    computes : ((k : ℕ) → d.kernel_gs k ≡ c.kernel_gs k) → Step c d
    calls : Apart c → d ≡ called mask unmask inner entry after c → Step c d

  pub data Reach (c : Cpu) : Cpu → Type 0 where
    here : Reach c c
    next_step : {d e : Cpu} → Reach c d → Step d e → Reach c e

  module _ (result : ℕ → ℕ → ℕ → ℕ → ℕ → ℕ → ℕ) where
    abbrev pub Sysv : Type 0
    Sysv = (e : Cpu) → IsSysv64 inner bottom result e

    Step-top : (c d : Cpu) → Sysv → bottom + 16 ≤ top c → Step c d → top d ≡ top c
    Step-top c d sysv deep (computes kept) = kept 0
    Step-top c d sysv deep (calls (room, apart) e) =
        let (value, back, frame, base, to, flags, stack, gs, resumed) =
          syscall_n_returns mask unmask inner entry after c bottom result sysv deep room apart in
        ap top e ∙ stack

    Reach-top : (c d : Cpu) → Sysv → bottom + 16 ≤ top c → Reach c d → top d ≡ top c
    Reach-top c d sysv deep here = refl
    Reach-top c e sysv deep (next_step {d} reach step) =
        let so_far : top d ≡ top c = Reach-top c d sysv deep reach in
        Step-top d e sysv (omega (arith, deep, so_far)) step ∙ so_far

    -- However many system calls a program has made, and whatever it did in between, the next one
    -- enters the kernel on the same stack as the first, answers, returns to its caller, and
    -- leaves that stack for the one after it. The inner handler keeps to the System V
    -- convention, the kernel's stack has room for two words above its frames, and the caller's
    -- frame does not lie in the kernel's stack.
    pub next_call_returns :
        (c d : Cpu)
        → Sysv
        → bottom + 16 ≤ top c
        → Reach c d
        → Apart d
        → (top d ≡ top c)
          × (reg rax (called mask unmask inner entry after d)
              ≡ result (reg rdi d) (reg rsi d) (reg rdx d) (reg rcx d) (reg r8 d) (reg r9 d))
          × (reg rsp (called mask unmask inner entry after d) ≡ reg rsp d + 8)
          × ((called mask unmask inner entry after d).rip ≡ d.memory (reg rsp d))
          × (top (called mask unmask inner entry after d) ≡ top c)
    next_call_returns c d sysv deep reach (room, apart) =
        let same : top d ≡ top c = Reach-top c d sysv deep reach in
        let (value, back, frame, base, to, flags, stack, gs, resumed) =
          syscall_n_returns mask unmask inner entry after d bottom result sysv
            (omega (arith, deep, same)) room apart in
        (same, value, back, to, stack ∙ same)
