-- ===== src/Entry/Samples.antt =====
-- A handler of system calls on the registers: test data.
use zulu_os.Base.{ℕ, refl}
use zulu_os.Entry.{rax, rcx, rdx, rsi, rdi, r8, r9, reg_number, Cpu, reg, write_reg}
use zulu_os.Entry.Returns.{IsSysv64}

-- An inner handler that leaves everything but rax alone.
abbrev pub answers : (ℕ → ℕ → ℕ → ℕ → ℕ → ℕ → ℕ) → Cpu → Cpu
answers result c =
    write_reg rax (result (reg rdi c) (reg rsi c) (reg rdx c) (reg rcx c) (reg r8 c) (reg r9 c)) c

pub answers-IsSysv64 :
    (result : ℕ → ℕ → ℕ → ℕ → ℕ → ℕ → ℕ) (bottom : ℕ) (c : Cpu)
    → IsSysv64 (answers result) bottom result c
unfolding reg_number
answers-IsSysv64 result bottom c = record {
  value = refl;
  keeps_rsp = refl;
  keeps_rbp = refl;
  keeps_rbx = refl;
  keeps_gs = λ k. refl;
  keeps_user_gs = λ k. refl;
  frames = λ a h. refl;
}
