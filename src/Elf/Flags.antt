-- ===== src/Elf/Flags.antt =====
-- The flags of a segment and of a page that several segments share (kernel/src/elf/mod.rs).
use zulu_os.Base.{
  ℕ, ◌≡◌, refl, Bool, true, false, not, ◌||◌, ◌&&◌, List, [], ◌∷◌, none, some, ◌==◌, if◌then◌else◌,
  bit_and, arith, inl, inr, Option-cases,
}
use zulu_os.Tasks.Maps.{lookup, lookup-insert}
use zulu_os.Paging.{Paging, Flag, present, writable, user_accessible, no_execute}
use zulu_os.Elf.{Object, flag_number, segment_flags, merge_flags, add_page, add_pages}

abbrev pub among : ℕ → List ℕ → Bool
among q [] = false
among q (page ∷ rest) = (page == q) || among q rest

module _ (P : Paging) (O : Object P) where
  open P use {contains}

  plus :
      (c : Bool) (a : P.Flags) (g f : Flag)
      → contains (if c then a else O.union a (O.only g)) f
        ≡ contains a f || (not c && (flag_number g == flag_number f))
  plus true a g f = ground arith
  plus false a g f = ground (arith, O.contains_union a (O.only g) f, O.contains_only g f)

  -- The permissions of a segment, flag by flag: the page is present, the user may access it if the
  -- segment is readable, write to it if it is writable, and not execute it unless it is executable.
  pub segment_flags_lem :
      (bits : ℕ)
      → (contains (segment_flags P O bits) present ≡ true)
        × (contains (segment_flags P O bits) user_accessible ≡ not (bit_and bits O.pf_r == 0))
        × (contains (segment_flags P O bits) writable ≡ not (bit_and bits O.pf_w == 0))
        × (contains (segment_flags P O bits) no_execute ≡ (bit_and bits O.pf_x == 0))
  unfolding segment_flags flag_number
  segment_flags_lem bits = (
    ground (arith, each present),
    ground (arith, each user_accessible),
    ground (arith, each writable),
    ground (arith, each no_execute),
  )
    where
      r : Bool
      r = bit_and bits O.pf_r == 0

      w : Bool
      w = bit_and bits O.pf_w == 0

      x : Bool
      x = bit_and bits O.pf_x == 0

      a : P.Flags
      a = if r then O.only present else O.union (O.only present) (O.only user_accessible)

      b : P.Flags
      b = if w then a else O.union a (O.only writable)

      each :
          (f : Flag)
          → contains (segment_flags P O bits) f
            ≡ ((flag_number present == flag_number f)
                || (not r && (flag_number user_accessible == flag_number f))
                || (not w && (flag_number writable == flag_number f)))
              || (x && (flag_number no_execute == flag_number f))
      each f = ground (
        arith,
        plus r (O.only present) user_accessible f,
        plus w a writable f,
        plus false b no_execute f,
        O.contains_only present f,
      )

  -- What two segments that share a page make of it: it has the flags of either, but for
  -- `NO_EXECUTE`, which the later segment decides alone.
  pub merge_flags_lem :
      (current new : P.Flags) (f : Flag)
      → contains (merge_flags P O current new) f ≡ (
          if flag_number no_execute == flag_number f
          then contains new f
          else contains current f || contains new f)
  unfolding merge_flags flag_number
  merge_flags_lem current new present = ground (
    arith,
    O.contains_union current new present,
    O.contains_set (O.union current new) no_execute present false,
  )
  merge_flags_lem current new writable = ground (
    arith,
    O.contains_union current new writable,
    O.contains_set (O.union current new) no_execute writable false,
  )
  merge_flags_lem current new user_accessible = ground (
    arith,
    O.contains_union current new user_accessible,
    O.contains_set (O.union current new) no_execute user_accessible false,
  )
  merge_flags_lem current new no_execute = ground (
    arith,
    O.contains_union current new no_execute,
    O.contains_set (O.union current new) no_execute no_execute false,
  )

  -- The flag is set in the table's entry of the page.
  pub allows : List (ℕ × P.Flags) → ℕ → Flag → Bool
  allows table page f = elim (lookup page table) [ none ↦ false | some flags ↦ contains flags f ]

  -- What a segment's page adds to what the table has.
  abbrev pub granted : P.Flags → Flag → Bool → Bool
  granted flags f before =
      if flag_number no_execute == flag_number f
      then contains flags f
      else before || contains flags f

  pub add_page_lem :
      (flags : P.Flags) (page : ℕ) (table : List (ℕ × P.Flags)) (q : ℕ) (f : Flag)
      → allows (add_page P O flags page table) q f
        ≡ (if page == q then granted flags f (allows table q f) else allows table q f)
  unfolding add_page allows
  add_page_lem flags page table q f = elim (Option-cases (lookup page table)) [
    | inl new ↦ ground (arith, lookup-insert page q flags table)
    | inr (current, old) ↦ ground (
      arith,
      lookup-insert page q (merge_flags P O current flags) table,
      merge_flags_lem current flags f,
    )
  ]

  -- A segment's pages, the same one any number of times.
  pub add_pages_lem :
      (flags : P.Flags) (its_pages : List ℕ) (table : List (ℕ × P.Flags)) (q : ℕ) (f : Flag)
      → allows (add_pages P O flags its_pages table) q f
        ≡ (if among q its_pages then granted flags f (allows table q f) else allows table q f)
  unfolding add_pages
  add_pages_lem flags [] table q f = refl
  add_pages_lem flags (page ∷ rest) table q f = ground (
    arith,
    add_pages_lem flags rest (add_page P O flags page table) q f,
    add_page_lem flags page table q f,
  )

  -- A page without an entry allows nothing; one that allows something has an entry.
  pub allows_nil : (q : ℕ) (f : Flag) → allows [] q f ≡ false
  unfolding allows lookup
  allows_nil q f = refl

  pub allows-some :
      (table : List (ℕ × P.Flags)) (q : ℕ) (f : Flag)
      → allows table q f ≡ true
      → (flags : P.Flags) × (lookup q table ≡ some flags) × (contains flags f ≡ true)
  unfolding allows
  allows-some table q f e = elim (Option-cases (lookup q table)) [
    | inl new ↦ absurd (ground arith)
    | inr (flags, found) ↦ (flags, found, ground arith)
  ]
