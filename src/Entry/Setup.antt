-- ===== src/Entry/Setup.antt =====
-- What has to be in place before a user program can make a system call: the registers that
-- `syscall::init` sets, the `ThreadData` behind GS (kernel/src/syscall/mod.rs), and the way into user
-- mode (kernel/src/main.rs). A panic is `none`.
pub mod Thread
pub mod Masked
pub mod Access
use zulu_os.Base.{
  ℕ, zero, suc, ◌+◌, Bool, List, [], ◌∷◌, Option, none, some, ◌>>=◌, ◌==◌, if◌then◌else◌, bit_or,
}
use zulu_os.Paging.{Paging}
use zulu_os.Alloc.{BumpAllocator, Layout, alloc}
use zulu_os.Entry.{
  rcx, rsi, rdi, rbp, rsp, r11, Cpu, Instr, mov, mov_imm, jmp, swapgs, sysretq, write_reg,
  kernel_rsp_offset, user_rsp_offset, run,
}

-- SFMASK, EFER, CR4 and LSTAR.
pub record Registers : Type 0 where
  pub sfmask : ℕ
  pub efer : ℕ
  pub cr4 : ℕ
  pub lstar : ℕ

-- The bits that the crate `x86_64` names: `RFlags::INTERRUPT_FLAG`,
-- `EferFlags::SYSTEM_CALL_EXTENSIONS` and `Cr4Flags::FSGSBASE`, as the processor has them.
abbrev pub interrupt_flag : ℕ
interrupt_flag = 0x200

abbrev pub system_call_extensions : ℕ
system_call_extensions = 0x1

abbrev pub fsgsbase : ℕ
fsgsbase = 0x10000

-- `syscall::init`, for the address of `syscall_handler`
pub syscall_init : Paging → ℕ → Registers → Option Registers
syscall_init P handler r = do
  syscall_rip ← P.try_new handler
  some (record {
    sfmask = bit_or r.sfmask interrupt_flag;
    efer = bit_or r.efer system_call_extensions;
    cr4 = bit_or r.cr4 fsgsbase;
    lstar = syscall_rip;
  })

pub record ThreadData : Type 0 where
  pub kernel_rsp : Option ℕ
  pub user_tmp_rsp : Option ℕ

-- `NonZeroU64::new`, and the word that an `Option<NonZeroU64>` is
unfoldable pub non_zero : ℕ → Option ℕ
non_zero zero = none
non_zero (suc n) = some (suc n)

unfoldable pub word : Option ℕ → ℕ
word none = 0
word (some n) = n

-- The words of a `ThreadData`, by their offset.
pub words_of : ThreadData → ℕ → ℕ
unfolding word
words_of thread k =
    if k == kernel_rsp_offset
    then word thread.kernel_rsp
    else if k == user_rsp_offset
    then word thread.user_tmp_rsp
    else 0

abbrev pub thread_data_layout : Layout
thread_data_layout = record { size = 16; align = 8 }

-- `init_thread_data`: where the box is, the allocator, and the processor with GS on the box. A null
-- pointer ends in `alloc_error_handler`, which panics.
pub init_thread_data :
    Paging → Bool → ThreadData → BumpAllocator → Cpu → Option (ℕ × BumpAllocator × Cpu)
unfolding words_of
init_thread_data P checks thread a c = do
  (p, a') ← alloc checks a thread_data_layout
  if p == 0
      then none
      else (do thread_data ← P.try_new p; some (thread_data, a', record c { gs = words_of thread }))

-- `user_mode_flags`: interrupts on, and the bit that is always 1
abbrev pub user_mode_flags : ℕ
user_mode_flags = bit_or interrupt_flag 2

-- The body of `enter_user_mode`.
abbrev pub entering_user_mode : List Instr
entering_user_mode =
    mov rcx rdi ∷ mov_imm r11 user_mode_flags ∷ mov rsp rsi ∷ mov rbp rsi ∷ swapgs ∷ sysretq ∷ []

-- `enter_user_mode`, with its arguments as System V passes them
pub enter_user_mode : (ℕ → ℕ) → (ℕ → ℕ) → (Cpu → Cpu) → ℕ → ℕ → ℕ → Cpu → Cpu
enter_user_mode mask unmask inner addr user_stack entry c =
    run mask unmask inner entry entry entering_user_mode
      (write_reg rdi addr (write_reg rsi user_stack c))

-- The body of `_start` of kernel/src/main.rs, for the address of `kernel_main`.
abbrev pub start_code : ℕ → List Instr
start_code kernel_main = mov rsi rsp ∷ jmp kernel_main ∷ []

-- `_start`: the processor where `kernel_main` begins. It runs before there are system calls.
pub enter_kernel : (Cpu → Cpu) → ℕ → Cpu → Cpu
enter_kernel inner kernel_main c = run (λ f. f) (λ f. f) inner 0 0 (start_code kernel_main) c
