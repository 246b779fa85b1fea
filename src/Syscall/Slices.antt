-- ===== src/Syscall/Slices.antt =====
-- The check of user pointers (kernel/src/syscall/mod.rs) against the page table.
use zulu_os.Base.{
  ℕ, zero, suc, ◌+◌, ◌-◌, ◌*◌, ◌/◌, ◌^◌, ◌≤◌, ◌<◌, ◌≡◌, ◌⊎◌, refl, inl, inr, Bool, true, false,
  some, arith, ltb, isize_max, usize_sub, usize_sub_small, ◌∙◌, subst, max, Option-cases,
}
use zulu_os.Paging.{
  Paging, user_accessible, writable, Translation, not_mapped, invalid_frame_address, mapped,
  page_run,
}
use zulu_os.Syscall.{
  invalid_argument, ok, err, panic, ◌>>=◌, ReadAccess, read_only, read_write, check_flags,
  check_translation, check_user_addr, check_pages, construct_user_slice, construct_user_slice_mut,
  read_write,
}

module _ (P : Paging) where
  open P use {Flags, Mapper, contains, translate, page_containing}

  -- User mode may access the page, with the access asked for.
  abbrev pub MappedFor : Translation Flags → ReadAccess → Type 0
  MappedFor not_mapped access = ⊥
  MappedFor invalid_frame_address access = ⊥
  MappedFor (mapped flags) read_only = contains flags user_accessible ≡ true
  MappedFor (mapped flags) read_write =
      (contains flags user_accessible ≡ true) × (contains flags writable ≡ true)

  abbrev pub UserPage : Mapper → ReadAccess → ℕ → Type 0
  UserPage m access page = MappedFor (translate m page) access

  check_translation-cases :
      (t : Translation Flags) (access : ReadAccess)
      → ((check_translation P t access ≡ ok tt) × MappedFor t access)
        ⊎ ((check_translation P t access ≡ err invalid_argument) × (¬ MappedFor t access))
  unfolding check_translation check_flags
  check_translation-cases not_mapped access = inr (refl, λ h. h)
  check_translation-cases invalid_frame_address access = inr (refl, λ h. h)
  check_translation-cases (mapped flags) read_only = ground arith
  check_translation-cases (mapped flags) read_write = ground arith

  check_pages-cases :
      (m : Mapper) (access : ReadAccess) (n first : ℕ)
      → ((check_pages P m access (page_run n first) ≡ ok tt)
          × ((i : ℕ) → i < n → UserPage m access (first + i * 4096)))
        ⊎ ((check_pages P m access (page_run n first) ≡ err invalid_argument)
            × ((i : ℕ) × (i < n) × (¬ UserPage m access (first + i * 4096))))
  unfolding check_pages check_user_addr
  check_pages-cases m access zero first = inl (refl, λ i h. absurd (omega arith))
  check_pages-cases m access (suc n) first =
      let here : first + 0 * 4096 ≡ first = omega arith in
      elim (check_translation-cases (translate m first) access) [
        | inr (e, bad) ↦ inr (rw e, (0, omega arith, rw here bad))
        | inl (e, good) ↦ elim (check_pages-cases m access n (first + 4096)) [
          | inl (es, all) ↦ inl (rw e es, each m access n first good all)
          | inr (es, (i, lt, bad)) ↦
              let shift : first + suc i * 4096 ≡ first + 4096 + i * 4096 = omega arith in
              inr (rw e es, (suc i, omega arith, rw shift bad))
        ]
      ]
    where
      each :
          (m : Mapper) (access : ReadAccess) (n first : ℕ)
          → UserPage m access first
          → ((i : ℕ) → i < n → UserPage m access (first + 4096 + i * 4096))
          → (i : ℕ) → i < suc n
          → UserPage m access (first + i * 4096)
      each m access n first good all zero h =
          let here' : first + 0 * 4096 ≡ first = omega arith in rw here' good
      each m access n first good all (suc i) h =
          let shift : first + suc i * 4096 ≡ first + 4096 + i * 4096 = omega arith in
          rw shift (all i (omega arith))

  -- The pages that the code walks over, for a range that ends below 2 ^ 47.
  walked_pages :
      (ptr n : ℕ)
      → 0 < n
      → P.range_inclusive (page_containing ptr) (page_containing (ptr + (n - 1)))
        ≡ page_run (suc ((ptr + (n - 1)) / 4096 - ptr / 4096)) (ptr / 4096 * 4096)
  walked_pages ptr n pos =
      let last : page_containing (ptr + (n - 1))
          ≡ ptr / 4096 * 4096 + ((ptr + (n - 1)) / 4096 - ptr / 4096) * 4096 =
        P.page_containing_lem (ptr + (n - 1)) ∙ omega arith in
      rw (P.page_containing_lem ptr, last)
        (P.range_inclusive_lem (ptr / 4096 * 4096) ((ptr + (n - 1)) / 4096 - ptr / 4096))

  module _ (checks : Bool) where
    -- The slice for writing is the one that `construct_user_slice` would give for that access.
    pub construct_user_slice_mut_lem :
        (m : Mapper) (ptr n : ℕ)
        → construct_user_slice_mut P checks m ptr n
          ≡ construct_user_slice P checks m read_write ptr n
    unfolding construct_user_slice_mut construct_user_slice
    construct_user_slice_mut_lem m ptr n = refl

    construct_user_slice-check :
        (m : Mapper) (access : ReadAccess) (ptr n : ℕ)
        → 0 < n
        → n ≤ isize_max
        → ptr + n ≤ 2 ^ 47
        → construct_user_slice P checks m access ptr n ≡ (
            check_pages P m access
              (page_run (suc ((ptr + (n - 1)) / 4096 - ptr / 4096)) (ptr / 4096 * 4096))
            >>= λ _. ok (record { ptr = ptr; len = n }))
    unfolding construct_user_slice
    construct_user_slice-check m access ptr n pos small low =
        let fits : ltb isize_max n ≡ false = ground arith in
        rw (
          P.try_new_low ptr (omega arith),
          fits,
          usize_sub_small checks n 1 pos (omega arith),
          P.add_low ptr (n - 1) (omega arith),
          walked_pages ptr n pos,
        )

    -- For a range of at least one byte that ends below 2 ^ 47, `construct_user_slice` does not
    -- panic: it gives the slice, and user mode may access the page of every byte in it as asked,
    -- or it fails with `InvalidArgument`, and there is a byte in it whose page user mode may not
    -- access so.
    pub construct_user_slice-cases :
        (m : Mapper) (access : ReadAccess) (ptr n : ℕ)
        → 0 < n
        → n ≤ isize_max
        → ptr + n ≤ 2 ^ 47
        → ((construct_user_slice P checks m access ptr n ≡ ok (record { ptr = ptr; len = n }))
            × ((b : ℕ) → ptr ≤ b → b < ptr + n → UserPage m access (b / 4096 * 4096)))
          ⊎ ((construct_user_slice P checks m access ptr n ≡ err invalid_argument)
              × ((b : ℕ) × (ptr ≤ b) × (b < ptr + n) × (¬ UserPage m access (b / 4096 * 4096))))
    construct_user_slice-cases m access ptr n pos small low =
        elim (check_pages-cases m access (suc ((ptr + (n - 1)) / 4096 - ptr / 4096))
          (ptr / 4096 * 4096)) [
            | inl (e, all) ↦ inl (
              construct_user_slice-check m access ptr n pos small low ∙ rw e refl,
              λ b lo hi.
                  let place : ptr / 4096 * 4096 + (b / 4096 - ptr / 4096) * 4096 ≡ b / 4096 * 4096 =
                    omega arith in
                  subst (UserPage m access) place (all (b / 4096 - ptr / 4096) (omega arith)),
            )
            | inr (e, (i, lt, bad)) ↦
                let byte : ℕ = max ptr (ptr / 4096 * 4096 + i * 4096) in
                let place : byte / 4096 * 4096 ≡ ptr / 4096 * 4096 + i * 4096 = omega arith in
                inr (
                  construct_user_slice-check m access ptr n pos small low ∙ rw e refl,
                  (byte, omega arith, omega arith, rw place bad),
                )
          ]

    -- A length above `isize::MAX` is refused.
    pub construct_user_slice_long :
        (m : Mapper) (access : ReadAccess) (ptr n : ℕ)
        → isize_max < n
        → construct_user_slice P checks m access ptr n ≡ err invalid_argument
    unfolding construct_user_slice
    construct_user_slice_long m access ptr n long =
        let big : ltb isize_max n ≡ true = ground arith in
        elim (Option-cases (P.try_new ptr)) [ inl e ↦ rw e refl | inr (a, e) ↦ rw (e, big) refl ]

  -- In a build with overflow checks an empty slice makes the kernel panic, at any canonical
  -- address.
  pub construct_user_slice_empty :
      (m : Mapper) (access : ReadAccess) (ptr addr : ℕ)
      → P.try_new ptr ≡ some addr
      → construct_user_slice P true m access ptr 0 ≡ panic
  unfolding construct_user_slice usize_sub
  construct_user_slice_empty m access ptr addr e = rw e refl
