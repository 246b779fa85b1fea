-- ===== src/Syscall/Tests.antt =====
-- Runs and witnesses for the system calls (kernel/src/syscall/).
use zulu_os.Base.{ℕ, ◌+◌, ◌-◌, ◌*◌, ◌/◌, ◌≤◌, ◌<◌, ◌≡◌, ◌⊎◌, refl, true, [], ◌∷◌, arith, usize_mod}
use zulu_os.Vga.{ScreenChar, Writer}
use zulu_os.Vga.Document.{Shows, type_bytes}
use zulu_os.Vga.Samples.{plain, empty_document, blank_writer-Shows}
use zulu_os.Syscall.{
  read, write, exit, no_sys, invalid_argument, syscall_number, ok, err, read_only, read_write,
  construct_user_slice, write_text, read_text, returned, encode_error, finish,
  syscall_handler_inner,
}
use zulu_os.Syscall.Slices.{UserPage, construct_user_slice-cases}
use zulu_os.Syscall.Calls.{
  UserRange, write_granted, read_granted, write_denied, unknown_returns_zero,
}
use zulu_os.Syscall.Encoding.{decode, decode-finish}
use zulu_os.Syscall.Samples.{machine, two_pages, idle_kernel, readable}

construct_user_slice-cases_example :
    ((construct_user_slice machine true two_pages read_only 0x1ffe 4
        ≡ ok (record { ptr = 0x1ffe; len = 4 }))
      × ((b : ℕ)
          → 0x1ffe ≤ b
          → b < 0x1ffe + 4
          → UserPage machine two_pages read_only (b / 4096 * 4096)))
    ⊎ ((construct_user_slice machine true two_pages read_only 0x1ffe 4 ≡ err invalid_argument)
        × ((b : ℕ) × (0x1ffe ≤ b)
            × (b < 0x1ffe + 4)
            × (¬ UserPage machine two_pages read_only (b / 4096 * 4096))))
construct_user_slice-cases_example =
    construct_user_slice-cases machine true two_pages read_only 0x1ffe 4 (omega arith) (omega arith)
      (omega arith)

write_granted_example :
    (w : Writer ScreenChar) × (syscall_handler_inner plain machine true 2 0 0x1ffe 4 0 0 idle_kernel
      ≡ returned 4 (record idle_kernel { console = w }))
    × Shows plain w (
        type_bytes idle_kernel.console.color_code
          (b'a' ∷ b'a' ∷ b'a' ∷ b'a' ∷ [])
          (type_bytes idle_kernel.console.color_code write_text empty_document))
unfolding syscall_number
write_granted_example =
    write_granted plain machine true idle_kernel empty_document 0 0x1ffe 4 0 0
      (omega arith, omega arith, omega arith) readable blank_writer-Shows

write_denied_example :
    syscall_handler_inner plain machine true 2 0 0x2ffe 4 0 0 idle_kernel
    ≡ returned (usize_mod - 1) idle_kernel
unfolding syscall_number
write_denied_example =
    write_denied plain machine true idle_kernel 0 0x2ffe 4 0 0 0x3001
      (omega arith, omega arith, omega arith) (omega arith) (omega arith) (λ h. h)

unknown_returns_zero_example :
    (syscall_handler_inner plain machine true 258 0 0 0 0 0 idle_kernel ≡ returned 0 idle_kernel)
    × (finish plain machine true idle_kernel (err no_sys)
        ≡ finish plain machine true idle_kernel (ok (0, idle_kernel)))
unfolding syscall_number
unknown_returns_zero_example =
    unknown_returns_zero plain machine true idle_kernel 258 0 0 0 0 0
      (elim [ read ↦ omega arith | write ↦ omega arith | exit ↦ omega arith ])

decode-finish_example : decode (usize_mod - 1) ≡ err invalid_argument
unfolding finish encode_error
decode-finish_example =
    decode-finish plain machine true idle_kernel idle_kernel (err invalid_argument) (usize_mod - 1)
      (λ e. cc) finish_error
  where
    finish_error :
        finish plain machine true idle_kernel (err invalid_argument)
        ≡ returned (usize_mod - 1) idle_kernel
    finish_error = refl

read_granted_example :
    (w : Writer ScreenChar) × (syscall_handler_inner plain machine true 1 0 0x1ffe 2 0 0 idle_kernel
      ≡ returned 2 (record idle_kernel { console = w }))
    × Shows plain w (type_bytes idle_kernel.console.color_code read_text empty_document)
unfolding syscall_number
read_granted_example =
    read_granted plain machine true idle_kernel empty_document 0 0x1ffe 2 0 0
      (omega arith, omega arith, omega arith) writable_range blank_writer-Shows
  where
    writable_range : UserRange plain machine true idle_kernel read_write 0x1ffe 2
    writable_range b lo hi =
        let page : b / 4096 * 4096 ≡ 0x1000 = omega arith in rw page (refl, refl)
