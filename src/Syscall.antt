-- ===== src/Syscall.antt =====
-- The system calls: kernel/src/syscall/mod.rs (user slices), handler.rs (dispatch), io.rs,
-- process.rs, and the numbers and errors of syscall/src/lib.rs.
pub mod Slices
pub mod Calls
pub mod Encoding
pub mod Program
pub mod Samples
mod Tests
use zulu_os.Base.{
  ℕ, zero, suc, ◌+◌, ◌-◌, ◌%◌, Bool, true, false, not, List, [], ◌∷◌, ◌++◌, Option, none, some, ltb,
  ◌==◌, if◌then◌else◌, usize_mod, isize_max, usize_sub, length,
}
use zulu_os.Paging.{
  Paging, Flag, user_accessible, writable, Translation, not_mapped, invalid_frame_address, mapped,
}
use zulu_os.Vga.{Volatile, Writer, write_string, print_bytes}

-- `Syscall` of syscall/src/lib.rs
pub data Syscall : Type 0 where
  read write exit : Syscall

pub data Error : Type 0 where
  no_sys invalid_argument : Error

-- `as usize`
unfoldable pub syscall_number : Syscall → ℕ
syscall_number read = 1
syscall_number write = 2
syscall_number exit = 3

-- `as u8`: the first variant is 0.
unfoldable pub error_number : Error → ℕ
error_number no_sys = 0
error_number invalid_argument = 1

-- The `TryFromPrimitive` that the enum derives.
unfoldable pub syscall_of : ℕ → Option Syscall
syscall_of n =
    if n == 1 then some read else if n == 2 then some write else if n == 3 then some exit else none

-- `syscall::Result`, or a panic of the kernel
pub data Result {ℓ} (A : Type ℓ) : Type ℓ where
  ok : A → Result A
  err : Error → Result A
  panic : Result A

infixl 5 ◌>>=◌
abbrev pub ◌>>=◌ {ℓ κ} : {A : Type ℓ} {B : Type κ} → Result A → (A → Result B) → Result B
ok a >>= f = f a
err e >>= f = err e
panic >>= f = panic

abbrev pub or_err {ℓ} : {A : Type ℓ} → Error → Option A → Result A
or_err e none = err e
or_err e (some a) = ok a

abbrev pub or_panic {ℓ} : {A : Type ℓ} → Option A → Result A
or_panic none = panic
or_panic (some a) = ok a

abbrev pub guard : Bool → Error → Result (Unit {0})
guard true e = ok tt
guard false e = err e

pub data ReadAccess : Type 0 where
  read_only read_write : ReadAccess

-- A slice of user memory, by its address and length.
pub record Slice : Type 0 where
  pub ptr : ℕ
  pub len : ℕ

module _ (P : Paging) where
  open P use {Flags, Mapper, contains, translate, try_new, add, page_containing, range_inclusive}

  -- the branch of `check_user_addr` for a mapped page
  pub check_flags : Flags → ReadAccess → Result (Unit {0})
  check_flags flags read_only = guard (contains flags user_accessible) invalid_argument
  check_flags flags read_write =
      if not (contains flags user_accessible)
      then err invalid_argument
      else guard (contains flags writable) invalid_argument

  pub check_translation : Translation Flags → ReadAccess → Result (Unit {0})
  check_translation not_mapped access = err invalid_argument
  check_translation invalid_frame_address access = err invalid_argument
  check_translation (mapped flags) access = check_flags flags access

  pub check_user_addr : Mapper → ℕ → ReadAccess → Result (Unit {0})
  check_user_addr m addr access = check_translation (translate m addr) access

  -- the loop over the pages
  pub check_pages : Mapper → ReadAccess → List ℕ → Result (Unit {0})
  check_pages m access [] = ok tt
  check_pages m access (page ∷ pages) = do
    _ ← check_user_addr m page access
    check_pages m access pages

  module _ (checks : Bool) where
    -- `construct_user_slice` asks for `read_only`.
    pub construct_user_slice : Mapper → ReadAccess → ℕ → ℕ → Result Slice
    construct_user_slice m access ptr bytes = do
      addr ← or_err invalid_argument (try_new ptr)
      _ ← guard (not (ltb isize_max bytes)) invalid_argument
      last ← or_panic (usize_sub checks bytes 1)
      last_addr ← or_panic (add addr last)
      _ ← check_pages m access (range_inclusive (page_containing addr) (page_containing last_addr))
      ok (record { ptr = ptr; len = bytes })

    pub construct_user_slice_mut : Mapper → ℕ → ℕ → Result Slice
    construct_user_slice_mut m ptr bytes = do
      addr ← or_err invalid_argument (try_new ptr)
      _ ← guard (not (ltb isize_max bytes)) invalid_argument
      last ← or_panic (usize_sub checks bytes 1)
      last_addr ← or_panic (add addr last)
      _ ←
          check_pages m read_write
            (range_inclusive (page_containing addr) (page_containing last_addr))
      ok (record { ptr = ptr; len = bytes })

    -- `f` may fail itself: the caller's `?` joins the two results.
    pub with_user_slice : {R : Type 0} → Mapper → ℕ → ℕ → (Slice → Result R) → Result R
    with_user_slice m ptr bytes f = construct_user_slice m read_only ptr bytes >>= f

    pub with_user_slice_mut : {R : Type 0} → Mapper → ℕ → ℕ → (Slice → Result R) → Result R
    with_user_slice_mut m ptr bytes f = construct_user_slice_mut m ptr bytes >>= f

-- The bytes of a slice in a memory.
abbrev pub bytes_at : (ℕ → ℕ) → ℕ → ℕ → List ℕ
bytes_at memory ptr zero = []
bytes_at memory ptr (suc n) = memory ptr ∷ bytes_at memory (ptr + 1) n

-- "write" and "read", as the handlers print them, with the newline of `println!`
abbrev pub write_text : List ℕ
write_text = b'w' ∷ b'r' ∷ b'i' ∷ b't' ∷ b'e' ∷ b'\n' ∷ []

abbrev pub read_text : List ℕ
read_text = b'r' ∷ b'e' ∷ b'a' ∷ b'd' ∷ b'\n' ∷ []

-- How a call ends: back in user mode with a value, or on this core for good, or in a panic.
pub data Outcome (S : Type 0) : Type 0 where
  returned : ℕ → S → Outcome S
  halted : S → Outcome S
  panicked : Outcome S

-- `-(e as u8 as isize) as usize`
unfoldable pub encode_error : Error → ℕ
unfolding error_number
encode_error e = (usize_mod - error_number e) % usize_mod

module _ (V : Volatile) (P : Paging) (checks : Bool) where
  open V use {Cell}
  open P use {Mapper}

  -- What a system call can see and change.
  pub record Kernel : Type 0 where
    pub console : Writer Cell
    pub mapper : Mapper
    pub memory : ℕ → ℕ
    pub interrupts : Bool

  -- `println!` of a text without arguments
  pub println : List ℕ → Kernel → Option Kernel
  println line k = elim (write_string V line k.console) [
    | none ↦ none
    | some w ↦ some (record k { console = w })
  ]

  -- `io::write`: the fd is ignored.
  pub io_write : ℕ → Slice → Kernel → Result (ℕ × Kernel)
  unfolding println
  io_write fd s k = do
    k' ← or_panic (println write_text k)
    w ← or_panic (print_bytes V (bytes_at k.memory s.ptr s.len) k'.console)
    ok (s.len, record k' { console = w })

  -- `io::read`: it leaves the buffer alone.
  pub io_read : ℕ → Slice → Kernel → Result (ℕ × Kernel)
  unfolding println
  io_read fd s k = do k' ← or_panic (println read_text k); ok (s.len, k')

  -- The last match of the handler.
  pub finish : Kernel → Result (ℕ × Kernel) → Outcome Kernel
  finish k (ok (value, k')) = if ltb isize_max value then panicked else returned value k'
  finish k (err e) = returned (encode_error e) k
  finish k panic = panicked

  -- `exit` enables interrupts and halts.
  pub dispatch : Option Syscall → ℕ → ℕ → ℕ → Kernel → Outcome Kernel
  unfolding with_user_slice with_user_slice_mut
  dispatch none arg0 arg1 arg2 k = finish k (err no_sys)
  dispatch (some read) arg0 arg1 arg2 k =
      finish k (with_user_slice_mut P checks k.mapper arg1 arg2 (λ s. io_read arg0 s k))
  dispatch (some write) arg0 arg1 arg2 k =
      finish k (with_user_slice P checks k.mapper arg1 arg2 (λ s. io_write arg0 s k))
  dispatch (some exit) arg0 arg1 arg2 k = halted (record k { interrupts = true })

  -- `syscall_handler_inner`; the last two arguments are not used by any call.
  pub syscall_handler_inner : ℕ → ℕ → ℕ → ℕ → ℕ → ℕ → Kernel → Outcome Kernel
  unfolding dispatch finish
  syscall_handler_inner syscall_num arg0 arg1 arg2 arg3 arg4 k =
      dispatch (if ltb syscall_num 256 then syscall_of syscall_num else none) arg0 arg1 arg2 k
