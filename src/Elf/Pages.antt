-- ===== src/Elf/Pages.antt =====
-- The table of pages that the loader maps (kernel/src/elf/mod.rs) against the bytes of the
-- segments.
use zulu_os.Base.{
  ℕ, zero, suc, ◌+◌, ◌-◌, ◌*◌, ◌/◌, ◌^◌, ◌<◌, ◌≤◌, ◌≡◌, ◌≢◌, refl, ◌∙◌, ap, Bool, true, false, List,
  [], ◌∷◌, ◌++◌, some, ◌==◌, if◌then◌else◌, arith,
}
use zulu_os.Paging.{Paging, Flag, present, writable, user_accessible, no_execute, page_run}
use zulu_os.Elf.{
  Object, flag_number, ElfSegment, VirtualMapDestination, pages, add_pages, collect_pages,
}
use zulu_os.Elf.Flags.{allows, granted, among, add_pages_lem}

-- The number of pages that `pages` gives, less one.
abbrev pub more_pages : VirtualMapDestination → ℕ
more_pages d = (d.start + d.len) / 4096 - d.start / 4096

abbrev pub page_list : VirtualMapDestination → List ℕ
page_list d = page_run (suc (more_pages d)) (d.start / 4096 * 4096)

other_flag : (f : Flag) → f ≢ no_execute → (flag_number no_execute == flag_number f) ≡ false
unfolding flag_number
other_flag present ne = refl
other_flag writable ne = refl
other_flag user_accessible ne = refl
other_flag no_execute ne = absurd (ne refl)

module _ (P : Paging) (O : Object P) where
  open P use {contains, page_containing}

  pub among-page_run :
      (n first i q : ℕ) → i < n → q ≡ first + i * 4096 → among q (page_run n first) ≡ true
  among-page_run zero first i q h e = absurd (omega arith)
  among-page_run (suc n) first zero q h e = ground arith
  among-page_run (suc n) first (suc i) q h e =
      ground (arith, among-page_run n (first + 4096) i q (omega arith) (omega arith))

  -- For a segment that ends below 2 ^ 47 `pages` does not panic, and gives the page of every byte.
  pub pages_lem :
      (d : VirtualMapDestination)
      → d.start + d.len < 2 ^ 47
      → (pages P O d ≡ some (page_list d))
        × ((b : ℕ)
            → d.start ≤ b
            → b < d.start + d.len
            → among (b / 4096 * 4096) (page_list d) ≡ true)
  unfolding pages
  pages_lem d low =
      let last : page_containing (d.start + d.len) ≡ d.start / 4096 * 4096 + more_pages d * 4096 =
        P.page_containing_lem (d.start + d.len) ∙ omega arith in
      (
        rw (P.add_low d.start d.len low, P.page_containing_lem d.start, last)
            (ap some (P.range_inclusive_lem (d.start / 4096 * 4096) (more_pages d))),
        λ b lo hi.
            among-page_run (suc (more_pages d)) (d.start / 4096 * 4096) (b / 4096 - d.start / 4096)
              (b / 4096 * 4096) (omega arith) (omega arith),
      )

  abbrev pub Low : List (ElfSegment P O) → Type 0
  Low [] = Unit {0}
  Low (s ∷ ss) = (s.addr.start + s.addr.len < 2 ^ 47) × Low ss

  -- The flag that the segments leave on a page, in their order.
  abbrev pub left_by : Flag → ℕ → List (ElfSegment P O) → Bool → Bool
  left_by f q [] before = before
  left_by f q (s ∷ ss) before =
      left_by f q ss (if among q (page_list s.addr) then granted P O s.flags f before else before)

  left_by-append :
      (f : Flag) (q : ℕ) (ss tt : List (ElfSegment P O)) (b : Bool)
      → left_by f q (ss ++ tt) b ≡ left_by f q tt (left_by f q ss b)
  left_by-append f q [] tt b = refl
  left_by-append f q (s ∷ ss) tt b =
      left_by-append f q ss tt (if among q (page_list s.addr) then granted P O s.flags f b else b)

  left_by_kept :
      (f : Flag) (q : ℕ) (ss : List (ElfSegment P O))
      → (flag_number no_execute == flag_number f) ≡ false
      → left_by f q ss true ≡ true
  left_by_kept f q [] other = refl
  left_by_kept f q (s ∷ ss) other =
      let still : (if among q (page_list s.addr) then granted P O s.flags f true else true) ≡ true =
        ground arith in
      ap (left_by f q ss) still ∙ left_by_kept f q ss other

  pub collect_pages_lem :
      (ss : List (ElfSegment P O)) (table : List (ℕ × P.Flags))
      → Low ss
      → (table' : List (ℕ × P.Flags)) × (collect_pages P O ss table ≡ some table')
        × ((q : ℕ) (f : Flag) → allows P O table' q f ≡ left_by f q ss (allows P O table q f))
  unfolding collect_pages
  collect_pages_lem [] table low = (table, refl, λ q f. refl)
  collect_pages_lem (s ∷ ss) table low =
      let next : List (ℕ × P.Flags) = add_pages P O s.flags (page_list s.addr) table in
      let (table', e, l) = collect_pages_lem ss next low.1 in
      (
        table',
        rw ((pages_lem s.addr low.0).0) e,
        λ q f. l q f ∙ ap (left_by f q ss) (add_pages_lem P O s.flags (page_list s.addr) table q f),
      )

  pub Low-middle :
      (before after : List (ElfSegment P O)) (s : ElfSegment P O)
      → Low (before ++ s ∷ after)
      → s.addr.start + s.addr.len < 2 ^ 47
  Low-middle [] after s low = low.0
  Low-middle (r ∷ before) after s low = Low-middle before after s low.1

  -- For segments that end below 2 ^ 47 the table is built without a panic, and gives the page of
  -- every byte of every segment the flags of that segment, `NO_EXECUTE` left aside.
  pub collect_pages_grants :
      (before after : List (ElfSegment P O)) (s : ElfSegment P O)
      → Low (before ++ s ∷ after)
      → (table : List (ℕ × P.Flags)) × (collect_pages P O (before ++ s ∷ after) [] ≡ some table)
        × ((b : ℕ) (f : Flag)
            → s.addr.start ≤ b
            → b < s.addr.start + s.addr.len
            → f ≢ no_execute
            → contains s.flags f ≡ true
            → allows P O table (b / 4096 * 4096) f ≡ true)
  collect_pages_grants before after s low =
      let (table, e, l) = collect_pages_lem (before ++ s ∷ after) [] low in
      let mine = (pages_lem s.addr (Low-middle before after s low)).1 in
      (
        table,
        e,
        λ b f lo hi other has.
            let q : ℕ = b / 4096 * 4096 in
            let x : Bool = left_by f q before (allows P O [] q f) in
            let set_now : (if among q (page_list s.addr) then granted P O s.flags f x else x)
                ≡ true =
              ground (arith, mine b lo hi, other_flag f other) in
            l q f
            ∙ left_by-append f q before (s ∷ after) (allows P O [] q f)
            ∙ ap (left_by f q after) set_now
            ∙ left_by_kept f q after (other_flag f other),
      )

  -- For segments that end below 2 ^ 47, whether a page of the last segment may be executed is
  -- decided by that segment alone, whatever the ones before it ask for.
  pub collect_pages_nx_last :
      (before : List (ElfSegment P O)) (s : ElfSegment P O)
      → Low (before ++ s ∷ [])
      → (table : List (ℕ × P.Flags)) × (collect_pages P O (before ++ s ∷ []) [] ≡ some table)
        × ((b : ℕ)
            → s.addr.start ≤ b
            → b < s.addr.start + s.addr.len
            → allows P O table (b / 4096 * 4096) no_execute ≡ contains s.flags no_execute)
  collect_pages_nx_last before s low =
      let (table, e, l) = collect_pages_lem (before ++ s ∷ []) [] low in
      let mine = (pages_lem s.addr (Low-middle before [] s low)).1 in
      (
        table,
        e,
        λ b lo hi.
            let q : ℕ = b / 4096 * 4096 in
            let x : Bool = left_by no_execute q before (allows P O [] q no_execute) in
            let set_now : (if among q (page_list s.addr)
                  then granted P O s.flags no_execute x
                  else x)
                ≡ contains s.flags no_execute =
              ground (arith, mine b lo hi) in
            l q no_execute
            ∙ left_by-append no_execute q before (s ∷ []) (allows P O [] q no_execute)
            ∙ set_now,
      )
