-- ===== src/Entry/Library.antt =====
-- `write` and `read` of syscall/src/lib.rs against the kernel's handler.
use zulu_os.Base.{ℕ, ◌+◌, ◌≤◌, ◌≡◌, ◌⊎◌, ◌∙◌, Bool, ap}
use zulu_os.Paging.{Paging}
use zulu_os.Vga.{Volatile}
use zulu_os.Vga.Document.{Document, Shows}
use zulu_os.Syscall.{
  Slice, Outcome, returned, halted, panicked, Kernel, read_only, read_write, syscall_handler_inner,
  syscall_number, read, write,
}
use zulu_os.Syscall.Calls.{UserRange, LowRange, write_granted, read_granted}
use zulu_os.Entry.{
  rax, rcx, rdx, rsi, rdi, rsp, r8, r9, reg_number, Cpu, reg, write_reg, syscall_3, user_write,
  user_read,
}
use zulu_os.Entry.Returns.{IsSysv64, top, syscall_n_returns}

module _ (V : Volatile) (P : Paging) (checks : Bool) where
  -- The value of a call that comes back.
  abbrev pub answer : Outcome (Kernel V P checks) → ℕ
  answer (returned value k) = value
  answer (halted k) = 0
  answer panicked = 0

  -- What the handler returns in a state of the kernel.
  abbrev pub handled : Kernel V P checks → ℕ → ℕ → ℕ → ℕ → ℕ → ℕ → ℕ
  handled k num arg0 arg1 arg2 arg3 arg4 =
      answer (syscall_handler_inner V P checks num arg0 arg1 arg2 arg3 arg4 k)

  module _ (mask unmask : ℕ → ℕ) (inner : Cpu → Cpu) (entry after : ℕ) where
    -- A program that writes a readable range of its memory gets its length back, continues at its
    -- return address, and has its stack as after any call.
    pub user_write_lem :
        (k : Kernel V P checks) (d : Document) (fd : ℕ) (s : Slice) (c : Cpu) (bottom : ℕ)
        → ((e : Cpu) → IsSysv64 inner bottom (handled k) e)
        → bottom + 16 ≤ top c
        → 8 ≤ reg rsp c
        → (reg rsp c + 8 ≤ bottom) ⊎ (top c + 8 ≤ reg rsp c)
        → LowRange V P checks s.ptr s.len
        → UserRange V P checks k read_only s.ptr s.len
        → Shows V k.console d
        → (reg rax (user_write mask unmask inner entry after fd s c) ≡ s.len)
          × (reg rsp (user_write mask unmask inner entry after fd s c) ≡ reg rsp c + 8)
          × ((user_write mask unmask inner entry after fd s c).rip ≡ c.memory (reg rsp c))
    unfolding user_write syscall_3 reg_number
    user_write_lem k d fd s c bottom sysv deep room apart low user shows =
        let loaded : Cpu =
          write_reg rdi (syscall_number write)
            (write_reg rsi fd (write_reg rdx s.ptr (write_reg rcx s.len c))) in
        let (value, back, frame, base, to, flags, stack, gs, resumed) =
          syscall_n_returns mask unmask inner entry after loaded bottom (handled k) sysv deep room
            apart in
        let (w, e, screen) =
          write_granted V P checks k d fd s.ptr s.len (reg r8 c) (reg r9 c) low user shows in
        (value ∙ ap answer e, back, to)

    -- So does a program that reads into a writable range.
    pub user_read_lem :
        (k : Kernel V P checks) (d : Document) (fd : ℕ) (s : Slice) (c : Cpu) (bottom : ℕ)
        → ((e : Cpu) → IsSysv64 inner bottom (handled k) e)
        → bottom + 16 ≤ top c
        → 8 ≤ reg rsp c
        → (reg rsp c + 8 ≤ bottom) ⊎ (top c + 8 ≤ reg rsp c)
        → LowRange V P checks s.ptr s.len
        → UserRange V P checks k read_write s.ptr s.len
        → Shows V k.console d
        → (reg rax (user_read mask unmask inner entry after fd s c) ≡ s.len)
          × (reg rsp (user_read mask unmask inner entry after fd s c) ≡ reg rsp c + 8)
          × ((user_read mask unmask inner entry after fd s c).rip ≡ c.memory (reg rsp c))
    unfolding user_read syscall_3 reg_number
    user_read_lem k d fd s c bottom sysv deep room apart low user shows =
        let loaded : Cpu =
          write_reg rdi (syscall_number read)
            (write_reg rsi fd (write_reg rdx s.ptr (write_reg rcx s.len c))) in
        let (value, back, frame, base, to, flags, stack, gs, resumed) =
          syscall_n_returns mask unmask inner entry after loaded bottom (handled k) sysv deep room
            apart in
        let (w, e, screen) =
          read_granted V P checks k d fd s.ptr s.len (reg r8 c) (reg r9 c) low user shows in
        (value ∙ ap answer e, back, to)
