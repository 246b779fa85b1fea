-- ===== src/Entry/Setup/Thread.antt =====
-- The data behind GS and the first entry into user mode (kernel/src/syscall/mod.rs, kernel/src/main.rs).
use zulu_os.Base.{ℕ, zero, suc, ◌+◌, ◌^◌, ◌<◌, ◌≤◌, ◌≡◌, refl, ◌∙◌, ap, Bool, some, arith, bit_or}
use zulu_os.Paging.{Paging}
use zulu_os.Alloc.{BumpAllocator, alloc}
use zulu_os.Alloc.Align.{IsLayout}
use zulu_os.Alloc.Serial.{alloc_lem}
use zulu_os.Entry.{rsi, rdi, rbp, rsp, reg_number, Cpu, reg, kernel_rsp_offset, exec, run}
use zulu_os.Entry.Setup.{
  Registers, interrupt_flag, system_call_extensions, fsgsbase, syscall_init, ThreadData, non_zero,
  word, words_of, thread_data_layout, init_thread_data, user_mode_flags, enter_user_mode,
  enter_kernel,
}

thread_data_layout-IsLayout : IsLayout thread_data_layout
thread_data_layout-IsLayout = record {
  bits = 3;
  bits_lt = omega arith;
  align_pow = refl;
  size_pos = omega arith;
  size_fits = omega arith;
}

word-non_zero : (n : ℕ) → word (non_zero n) ≡ n
unfolding word non_zero
word-non_zero zero = refl
word-non_zero (suc n) = refl

-- With room for the box, it lies where the allocator was, and GS has the words of the data.
pub init_thread_data_lem :
    (P : Paging) (checks : Bool) (thread : ThreadData) (a : BumpAllocator) (c : Cpu)
    → 0 < a.next
    → a.next ≤ a.heap_end
    → a.heap_end + 16 < 2 ^ 47
    → init_thread_data P checks thread a c
      ≡ some (a.next, record a { next = a.next + 16 }, record c { gs = words_of thread })
unfolding init_thread_data
init_thread_data_lem P checks thread a c pos room low =
    let granted : alloc checks a thread_data_layout
        ≡ some (a.next, record a { next = a.next + 16 }) =
      alloc_lem checks a thread_data_layout thread_data_layout-IsLayout (omega (arith, room, low))
      ∙ ground arith in
    rw (granted, P.try_new_low a.next (omega arith)) (ground arith)

-- In user mode the program starts at `addr` on its own stack, and the words behind GS wait in the base
-- that `swapgs` brings back.
pub enter_user_mode_lem :
    (mask unmask : ℕ → ℕ) (inner : Cpu → Cpu) (addr user_stack entry : ℕ) (c : Cpu)
    → (c' : Cpu) × (enter_user_mode mask unmask inner addr user_stack entry c ≡ c')
      × (c'.rip ≡ addr)
      × (reg rsp c' ≡ user_stack)
      × (reg rbp c' ≡ user_stack)
      × (c'.rflags ≡ unmask user_mode_flags)
      × (c'.kernel_gs ≡ c.gs)
      × (c'.gs ≡ c.kernel_gs)
unfolding enter_user_mode run exec reg_number
enter_user_mode_lem mask unmask inner addr user_stack entry c = (
  enter_user_mode mask unmask inner addr user_stack entry c,
  refl,
  refl,
  refl,
  refl,
  refl,
  refl,
  refl,
)

pub words_of_lem :
    (thread : ThreadData) (n : ℕ)
    → thread.kernel_rsp ≡ non_zero n
    → words_of thread kernel_rsp_offset ≡ n
unfolding words_of
words_of_lem thread n e = ap word e ∙ word-non_zero n

pub syscall_init_lem :
    (P : Paging) (handler : ℕ) (r : Registers)
    → handler < 2 ^ 47
    → syscall_init P handler r
      ≡ some (record {
        sfmask = bit_or r.sfmask interrupt_flag;
        efer = bit_or r.efer system_call_extensions;
        cr4 = bit_or r.cr4 fsgsbase;
        lstar = handler;
      })
unfolding syscall_init
syscall_init_lem P handler r low = rw (P.try_new_low handler low) refl

-- `_start` passes on the stack pointer as the second argument, and the first as it is.
pub enter_kernel_lem :
    (inner : Cpu → Cpu) (kernel_main : ℕ) (c : Cpu)
    → (reg rsi (enter_kernel inner kernel_main c) ≡ reg rsp c)
      × (reg rdi (enter_kernel inner kernel_main c) ≡ reg rdi c)
      × (reg rsp (enter_kernel inner kernel_main c) ≡ reg rsp c)
      × ((enter_kernel inner kernel_main c).rip ≡ kernel_main)
unfolding enter_kernel run exec reg_number
enter_kernel_lem inner kernel_main c = (refl, refl, refl, refl)
