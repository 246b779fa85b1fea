-- ===== src/Entry/Setup/Masked.antt =====
-- Interrupts during a system call (`syscall::init` of kernel/src/syscall/mod.rs).
use zulu_os.Base.{ℕ, ◌^◌, ◌<◌, ◌≡◌, refl, some, arith, bit_or}
use zulu_os.Base.Bits.{digit, digit-bit_or}
use zulu_os.Paging.{Paging}
use zulu_os.Entry.{Cpu, exec, run, entering, stub_start}
use zulu_os.Entry.Setup.{Registers, interrupt_flag, system_call_extensions, fsgsbase, syscall_init}
use zulu_os.Entry.Setup.Thread.{syscall_init_lem}

set_now : (k a b : ℕ) → digit k b ≡ 1 → digit k (bit_or a b) ≡ 1
set_now k a b h = omega (arith, digit-bit_or k a b, h)

kept_set : (k a b : ℕ) → digit k a ≡ 1 → digit k (bit_or a b) ≡ 1
kept_set k a b h = omega (arith, digit-bit_or k a b, h)

-- Interrupts are off while the kernel handles a system call: after `syscall::init` with a
-- handler in the lower half of the address space, a processor that clears the flags named by
-- SFMASK comes out of the library's `syscall`, and through the entry of the handler up to its
-- call, with the interrupt flag clear, whatever the flags of the program were. The handler's
-- address is in LSTAR, system calls and the use of GS are enabled, and what was masked before
-- still is.
pub syscall_init_masks :
    (P : Paging) (handler : ℕ) (r : Registers) (processor : ℕ → ℕ → ℕ) (unmask : ℕ → ℕ)
    (inner : Cpu → Cpu) (after : ℕ) (c : Cpu)
    → handler < 2 ^ 47
    → ((fmask flags k : ℕ) → digit k fmask ≡ 1 → digit k (processor fmask flags) ≡ 0)
    → (r' : Registers) × (syscall_init P handler r ≡ some r')
      × (r'.lstar ≡ handler)
      × (digit 0 r'.efer ≡ 1)
      × (digit 16 r'.cr4 ≡ 1)
      × ((k : ℕ) → digit k r.sfmask ≡ 1 → digit k r'.sfmask ≡ 1)
      × (digit 9
            (run
              (processor r'.sfmask)
              unmask
              inner
              r'.lstar
              after
              entering
              (run (processor r'.sfmask) unmask inner r'.lstar after stub_start c)).rflags
          ≡ 0)
unfolding run exec
syscall_init_masks P handler r processor unmask inner after c low clears = (
  record {
    sfmask = bit_or r.sfmask interrupt_flag;
    efer = bit_or r.efer system_call_extensions;
    cr4 = bit_or r.cr4 fsgsbase;
    lstar = handler;
  },
  syscall_init_lem P handler r low,
  refl,
  set_now 0 r.efer system_call_extensions refl,
  set_now 16 r.cr4 fsgsbase refl,
  λ k h. kept_set k r.sfmask interrupt_flag h,
  clears (bit_or r.sfmask interrupt_flag) c.rflags 9 (set_now 9 r.sfmask interrupt_flag refl),
)
