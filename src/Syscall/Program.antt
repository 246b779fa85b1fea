-- ===== src/Syscall/Program.antt =====
-- The user program userspace_test/src/main.rs, its calls answered by the kernel.
use zulu_os.Base.{ℕ, ◌+◌, ◌^◌, ◌≤◌, ◌≡◌, subst, Bool, true, List, [], ◌∷◌, arith}
use zulu_os.Paging.{Paging}
use zulu_os.Vga.{Volatile, Writer}
use zulu_os.Vga.Document.{Document, Shows, type_bytes}
use zulu_os.Syscall.{
  write, exit, syscall_number, read_only, Slice, Outcome, returned, halted, panicked, bytes_at,
  write_text, Kernel, syscall_handler_inner,
}
use zulu_os.Syscall.Calls.{UserRange, write_granted, exit_halts}

-- "Test print"
abbrev pub test_text : List ℕ
test_text = b'T' ∷ b'e' ∷ b's' ∷ b't' ∷ b' ' ∷ b'p' ∷ b'r' ∷ b'i' ∷ b'n' ∷ b't' ∷ []

module _ (V : Volatile) (P : Paging) (checks : Bool) where
  -- `syscall::exit`; `unused` is what the registers of the other arguments hold.
  pub user_exit : ℕ → ℕ → Kernel V P checks → Outcome (Kernel V P checks)
  user_exit unused code k =
      syscall_handler_inner V P checks (syscall_number exit) code unused unused unused unused k

  -- `_start`; the string is where the loader put it, and what `write` returns is not looked at.
  pub user_start : ℕ → Slice → Kernel V P checks → Outcome (Kernel V P checks)
  unfolding user_exit
  user_start unused s k =
      elim (syscall_handler_inner V P checks (syscall_number write) 0 s.ptr s.len unused unused k) [
        | returned value k' ↦ user_exit unused 0 k'
        | halted k' ↦ halted k'
        | panicked ↦ panicked
      ]

  -- The `panic` of the program.
  pub user_panic : ℕ → Kernel V P checks → Outcome (Kernel V P checks)
  unfolding user_exit
  user_panic unused k = user_exit unused 1 k

  -- With its string in memory below 2 ^ 47 that user mode may read, the program ends on a core
  -- that halts with interrupts on; the screen shows the line "write" and then the text "Test
  -- print", and the rest of the kernel is as before. A panic of the program ends in the same
  -- way, without the text.
  pub user_start_lem :
      (k : Kernel V P checks) (d : Document) (ptr unused : ℕ)
      → ptr + 10 ≤ 2 ^ 47
      → UserRange V P checks k read_only ptr 10
      → bytes_at k.memory ptr 10 ≡ test_text
      → Shows V k.console d
      → (w : Writer V.Cell) × (user_start unused (record { ptr = ptr; len = 10 }) k
          ≡ halted (record k { console = w; interrupts = true }))
        × Shows V w (
            type_bytes k.console.color_code test_text
              (type_bytes k.console.color_code write_text d))
        × (user_panic unused k ≡ halted (record k { interrupts = true }))
  unfolding user_start user_exit user_panic
  user_start_lem k d ptr unused low user text shows =
      let (w, e, shown) =
        write_granted V P checks k d 0 ptr 10 unused unused (omega arith, omega arith, low) user
          shows in
      (
        w,
        rw (e, user_start)
            (exit_halts V P checks (record k { console = w }) 0 unused unused unused unused),
        subst
            (λ bytes. Shows V w (
              type_bytes k.console.color_code bytes (type_bytes k.console.color_code write_text d)))
            text shown,
        exit_halts V P checks k 1 unused unused unused unused,
      )
