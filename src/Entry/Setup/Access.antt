-- ===== src/Entry/Setup/Access.antt =====
-- `with_thread_data` of kernel/src/syscall/mod.rs: kernel code at the data behind GS. A panic is `none`.
use zulu_os.Base.{
  ℕ, zero, suc, ◌<◌, ◌≡◌, refl, Bool, false, ◌&&◌, Option, none, some, ◌==◌, if◌then◌else◌, arith,
}
use zulu_os.Entry.{kernel_rsp_offset, user_rsp_offset}
use zulu_os.Entry.Setup.{ThreadData, non_zero, word, words_of}

-- The base of GS and the words there, and the interrupt flag.
pub record Access : Type 0 where
  pub gs_base : ℕ
  pub gs : ℕ → ℕ
  pub interrupts : Bool

-- `without_interrupts` of the crate `x86_64`, as documented: the closure runs with interrupts off, and they
-- are on afterwards if they were before.
pub record Masking : Type 1 where
  pub without_interrupts :
      {R : Type 0} → (Access → Option (R × Access)) → Access → Option (R × Access)
  pub without_interrupts_none :
      {R : Type 0} (f : Access → Option (R × Access)) (c : Access)
      → f (record c { interrupts = false }) ≡ none
      → without_interrupts f c ≡ none
  pub without_interrupts_some :
      {R : Type 0} (f : Access → Option (R × Access)) (c d : Access) (r : R)
      → f (record c { interrupts = false }) ≡ some (r, d)
      → without_interrupts f c ≡ some (r, record d { interrupts = c.interrupts })

-- The words as a `ThreadData`: an `Option<NonZeroU64>` is a word, and nothing is 0.
unfoldable pub thread_of : (ℕ → ℕ) → ThreadData
thread_of words = record {
  kernel_rsp = non_zero (words kernel_rsp_offset);
  user_tmp_rsp = non_zero (words user_rsp_offset);
}

module _ (I : Masking) (checks : Bool) where
  -- The closure in `with_thread_data`; `debug_assert!` is there in the profile with checks. What `f`
  -- does may depend on the interrupt flag of the core that it runs on.
  pub at_thread_data :
      {R : Type 0} → (Bool → ThreadData → R × ThreadData) → Access → Option (R × Access)
  unfolding thread_of
  at_thread_data f c =
      if checks && (c.gs_base == 0)
      then none
      else some (
        (f c.interrupts (thread_of c.gs)).0,
        record c { gs = words_of (f c.interrupts (thread_of c.gs)).1 },
      )

  pub with_thread_data :
      {R : Type 0} → (Bool → ThreadData → R × ThreadData) → Access → Option (R × Access)
  with_thread_data f c = I.without_interrupts (at_thread_data f) c

  -- What a `NonZeroU64` is.
  abbrev pub IsNonZero : Option ℕ → Type 0
  IsNonZero none = Unit {0}
  IsNonZero (some n) = 0 < n

  non_zero-word : (o : Option ℕ) → IsNonZero o → non_zero (word o) ≡ o
  unfolding non_zero word
  non_zero-word none h = refl
  non_zero-word (some zero) h = absurd (omega arith)
  non_zero-word (some (suc n)) h = refl

  thread_of-words_of :
      (t : ThreadData)
      → IsNonZero t.kernel_rsp
      → IsNonZero t.user_tmp_rsp
      → thread_of (words_of t) ≡ t
  unfolding thread_of words_of
  thread_of-words_of t k u = rw (non_zero-word t.kernel_rsp k, non_zero-word t.user_tmp_rsp u) refl

  -- With a box behind GS, `with_thread_data` does not panic, runs its closure with interrupts off on
  -- the data of the words there, and leaves the interrupt flag as it was; the next call, its closure
  -- run with interrupts off as well, finds what the first closure left, where that has no zero for
  -- its stack pointers.
  pub with_thread_data_twice :
      {R T : Type 0} (f : Bool → ThreadData → R × ThreadData)
      (g : Bool → ThreadData → T × ThreadData) (c : Access)
      → 0 < c.gs_base
      → IsNonZero (f false (thread_of c.gs)).1.kernel_rsp
      → IsNonZero (f false (thread_of c.gs)).1.user_tmp_rsp
      → (d : Access) × (e : Access) × (with_thread_data f c
          ≡ some ((f false (thread_of c.gs)).0, d))
        × (with_thread_data g d ≡ some ((g false (f false (thread_of c.gs)).1).0, e))
        × (d.interrupts ≡ c.interrupts)
        × (e.interrupts ≡ c.interrupts)
  unfolding with_thread_data at_thread_data
  with_thread_data_twice f g c boxed k u =
      let thread : ThreadData = (f false (thread_of c.gs)).1 in
      let there : (checks && (c.gs_base == 0)) ≡ false = ground arith in
      let d : Access = record c { gs = words_of thread } in
      let seen : thread_of (words_of thread) ≡ thread = thread_of-words_of thread k u in
      (
        d,
        record c { gs = words_of (g false thread).1 },
        I.without_interrupts_some (at_thread_data f) c (record d { interrupts = false })
            ((f false (thread_of c.gs)).0) (rw there refl),
        I.without_interrupts_some (at_thread_data g) d
            (record c { gs = words_of (g false thread).1; interrupts = false }) ((g false thread).0)
            (rw (there, seen) refl),
        refl,
        refl,
      )
