-- ===== src/Syscall/Encoding.antt =====
-- The value that a system call returns to its caller (the last match of `syscall_handler_inner`,
-- kernel/src/syscall/handler.rs), read back as a signed number.
use zulu_os.Base.{
  ℕ, ◌-◌, ◌≡◌, ◌≢◌, refl, Bool, arith, leb, ◌==◌, if◌then◌else◌, usize_mod, isize_max,
}
use zulu_os.Paging.{Paging}
use zulu_os.Vga.{Volatile}
use zulu_os.Syscall.{
  no_sys, invalid_argument, Result, ok, err, panic, returned, encode_error, error_number, Kernel,
  finish,
}

-- A negative number is an error by its negated code; what else is the result.
unfoldable pub decode : ℕ → Result ℕ
decode v =
    if leb v isize_max then ok v else err (if usize_mod - v == 1 then invalid_argument else no_sys)

module _ (V : Volatile) (P : Paging) (checks : Bool) where
  abbrev pub value_of : Result (ℕ × Kernel V P checks) → Result ℕ
  value_of (ok (v, k)) = ok v
  value_of (err e) = err e
  value_of panic = panic

  -- Whatever result a call has, but the error `NoSys`, its caller reads back from the number that
  -- the handler returns.
  pub decode-finish :
      (k k' : Kernel V P checks) (r : Result (ℕ × Kernel V P checks)) (v : ℕ)
      → r ≢ err no_sys
      → finish V P checks k r ≡ returned v k'
      → decode v ≡ value_of r
  unfolding decode finish encode_error error_number
  decode-finish k k' (ok (u, k1)) v ne e = ground arith
  decode-finish k k' (err no_sys) v ne e = absurd (ne refl)
  decode-finish k k' (err invalid_argument) v ne e = ground arith
  decode-finish k k' panic v ne e = absurd (ground arith)
