-- ===== src/Syscall/Calls.antt =====
-- What each system call does to the kernel's state and to its caller
-- (kernel/src/syscall/handler.rs, io.rs, process.rs).
use zulu_os.Base.{
  ℕ, ◌+◌, ◌-◌, ◌*◌, ◌/◌, ◌^◌, ◌≤◌, ◌<◌, ◌≡◌, ◌≢◌, refl, ap, inl, inr, Bool, true, false, List, none,
  some, arith, ltb, usize_mod, isize_max, ◌∙◌, subst, Bool-cases, map,
}
use zulu_os.Paging.{Paging}
use zulu_os.Vga.{Volatile, Writer, shown_byte}
use zulu_os.Vga.Document.{Document, Shows, type_bytes}
use zulu_os.Vga.Refine.{print_bytes_refines, write_string-eq-print_bytes}
use zulu_os.Syscall.{
  Syscall, read, write, exit, no_sys, invalid_argument, syscall_number, syscall_of, ok, err,
  ReadAccess, read_only, read_write, construct_user_slice, bytes_at, write_text, read_text,
  returned, halted, encode_error, Kernel, println, io_write, io_read, finish, dispatch,
  syscall_handler_inner,
}
use zulu_os.Syscall.Slices.{UserPage, construct_user_slice_mut_lem, construct_user_slice-cases}

module _ (V : Volatile) (P : Paging) (checks : Bool) where
  -- Of the range of user memory every byte may be accessed.
  abbrev pub UserRange : Kernel V P checks → ReadAccess → ℕ → ℕ → Type 0
  UserRange k access ptr n =
      (b : ℕ) → ptr ≤ b → b < ptr + n → UserPage P k.mapper access (b / 4096 * 4096)

  -- A range of at least one byte that ends below 2 ^ 47.
  abbrev pub LowRange : ℕ → ℕ → Type 0
  LowRange ptr n = (0 < n) × (n ≤ isize_max) × (ptr + n ≤ 2 ^ 47)

  slice_granted :
      (k : Kernel V P checks) (access : ReadAccess) (ptr n : ℕ)
      → LowRange ptr n
      → UserRange k access ptr n
      → construct_user_slice P checks k.mapper access ptr n ≡ ok (record { ptr = ptr; len = n })
  slice_granted k access ptr n r u =
      elim (construct_user_slice-cases P checks k.mapper access ptr n r.0 r.1 r.2) [
        | inl (e, all) ↦ e
        | inr (e, (b, lo, hi, bad)) ↦ absurd (bad (u b lo hi))
      ]

  slice_refused :
      (k : Kernel V P checks) (access : ReadAccess) (ptr n b : ℕ)
      → LowRange ptr n
      → ptr ≤ b
      → b < ptr + n
      → ¬ UserPage P k.mapper access (b / 4096 * 4096)
      → construct_user_slice P checks k.mapper access ptr n ≡ err invalid_argument
  slice_refused k access ptr n b r lo hi bad =
      elim (construct_user_slice-cases P checks k.mapper access ptr n r.0 r.1 r.2) [
        | inl (e, all) ↦ absurd (bad (all b lo hi))
        | inr (e, rest) ↦ e
      ]

  println_lem :
      (k : Kernel V P checks) (d : Document) (line : List ℕ)
      → Shows V k.console d
      → (w : Writer V.Cell) × (println V P checks line k ≡ some (record k { console = w }))
        × (w.color_code ≡ k.console.color_code)
        × Shows V w (type_bytes k.console.color_code (map shown_byte line) d)
  unfolding println
  println_lem k d line s =
      let (w, e, c, s') = print_bytes_refines V (map shown_byte line) k.console d s in
      (w, rw (write_string-eq-print_bytes V line k.console ∙ e, println), c, s')

  -- A write of a user range that may be read: the caller gets back the length, and the screen shows
  -- the line "write" and then the bytes that the range holds; nothing else changes.
  pub write_granted :
      (k : Kernel V P checks) (d : Document) (fd ptr n arg3 arg4 : ℕ)
      → LowRange ptr n
      → UserRange k read_only ptr n
      → Shows V k.console d
      → (w : Writer V.Cell) × (syscall_handler_inner V P checks
            (syscall_number write)
            fd
            ptr
            n
            arg3
            arg4
            k
          ≡ returned n (record k { console = w }))
        × Shows V w (
            type_bytes k.console.color_code
              (bytes_at k.memory ptr n)
              (type_bytes k.console.color_code write_text d))
  unfolding syscall_handler_inner io_write syscall_number syscall_of
  write_granted k d fd ptr n arg3 arg4 r u s =
      let (w1, e1, c1, s1) = println_lem k d write_text s in
      let (w2, e2, c2, s2) = print_bytes_refines V (bytes_at k.memory ptr n) w1 _ s1 in
      let fits : ltb isize_max n ≡ false = ground arith in
      (
        w2,
        rw (slice_granted k read_only ptr n r u, e1, e2, fits),
        subst
            (λ c. Shows V w2 (
              type_bytes c (bytes_at k.memory ptr n)
                (type_bytes k.console.color_code write_text d)))
            c1 s2,
      )

  -- A read into a user range that may be written: the caller gets back the length, the screen shows
  -- the line "read", and neither the memory nor anything else changes. No input is read.
  pub read_granted :
      (k : Kernel V P checks) (d : Document) (fd ptr n arg3 arg4 : ℕ)
      → LowRange ptr n
      → UserRange k read_write ptr n
      → Shows V k.console d
      → (w : Writer V.Cell) × (syscall_handler_inner V P checks
            (syscall_number read)
            fd
            ptr
            n
            arg3
            arg4
            k
          ≡ returned n (record k { console = w }))
        × Shows V w (type_bytes k.console.color_code read_text d)
  unfolding syscall_handler_inner io_read syscall_number syscall_of
  read_granted k d fd ptr n arg3 arg4 r u s =
      let (w1, e1, c1, s1) = println_lem k d read_text s in
      let fits : ltb isize_max n ≡ false = ground arith in
      (
        w1,
        rw (
          construct_user_slice_mut_lem P checks k.mapper ptr n
              ∙ slice_granted k read_write ptr n r u,
          e1,
          fits,
        ),
        s1,
      )

  -- A write of a range of at least one byte, its last one below 2 ^ 47, with a byte that user mode may
  -- not read, returns -1 and changes nothing: the kernel prints none of its own memory.
  pub write_denied :
      (k : Kernel V P checks) (fd ptr n arg3 arg4 b : ℕ)
      → LowRange ptr n
      → ptr ≤ b
      → b < ptr + n
      → ¬ UserPage P k.mapper read_only (b / 4096 * 4096)
      → syscall_handler_inner V P checks (syscall_number write) fd ptr n arg3 arg4 k
        ≡ returned (usize_mod - 1) k
  unfolding syscall_handler_inner syscall_number syscall_of encode_error
  write_denied k fd ptr n arg3 arg4 b r lo hi bad =
      rw (slice_refused k read_only ptr n b r lo hi bad) refl

  -- A read into a range with a byte that user mode may not write returns -1, and changes nothing.
  pub read_denied :
      (k : Kernel V P checks) (fd ptr n arg3 arg4 b : ℕ)
      → LowRange ptr n
      → ptr ≤ b
      → b < ptr + n
      → ¬ UserPage P k.mapper read_write (b / 4096 * 4096)
      → syscall_handler_inner V P checks (syscall_number read) fd ptr n arg3 arg4 k
        ≡ returned (usize_mod - 1) k
  unfolding syscall_handler_inner syscall_number syscall_of encode_error
  read_denied k fd ptr n arg3 arg4 b r lo hi bad =
      rw
        (construct_user_slice_mut_lem P checks k.mapper ptr n
          ∙ slice_refused k read_write ptr n b r lo hi bad)
        refl

  -- A number that names no system call, also one above 255, changes nothing and returns 0: the
  -- caller cannot tell `NoSys` from a call that returned 0.
  pub unknown_returns_zero :
      (k : Kernel V P checks) (num arg0 arg1 arg2 arg3 arg4 : ℕ)
      → ((c : Syscall) → num ≢ syscall_number c)
      → (syscall_handler_inner V P checks num arg0 arg1 arg2 arg3 arg4 k ≡ returned 0 k)
        × (finish V P checks k (err no_sys) ≡ finish V P checks k (ok (0, k)))
  unfolding syscall_handler_inner syscall_number syscall_of encode_error
  unknown_returns_zero k num arg0 arg1 arg2 arg3 arg4 other = (
    elim (Bool-cases (ltb num 256)) [
      | inl small ↦ rw small (ap (λ o. dispatch V P checks o arg0 arg1 arg2 k) (unnamed num other))
      | inr big ↦ rw big refl
    ],
    refl,
  )
    where
      unnamed : (m : ℕ) → ((c : Syscall) → m ≢ syscall_number c) → syscall_of m ≡ none
      unnamed m ne = ground (arith, ne read, ne write, ne exit)

  -- Exit ends on this core with interrupts on; the code is ignored.
  pub exit_halts :
      (k : Kernel V P checks) (code arg1 arg2 arg3 arg4 : ℕ)
      → syscall_handler_inner V P checks (syscall_number exit) code arg1 arg2 arg3 arg4 k
        ≡ halted (record k { interrupts = true })
  unfolding syscall_handler_inner syscall_number syscall_of
  exit_halts k code arg1 arg2 arg3 arg4 = refl
