-- ===== src/Elf/Load/Table.antt =====
-- The table of pages as a map (kernel/src/elf/mod.rs): its keys, its size, and who may use its pages.
use zulu_os.Base.{
  ℕ, ◌+◌, ◌≤◌, ◌≡◌, refl, sym, Bool, true, false, ◌||◌, List, [], ◌∷◌, none, some, ◌==◌, arith,
  length, inl, inr, Option-cases,
}
use zulu_os.Tasks.Maps.{lookup, IsMap, insert-IsMap, length-insert, lookup-insert}
use zulu_os.Paging.{Paging, present}
use zulu_os.Elf.{Object, ElfSegment, flag_number, merge_flags, add_page, add_pages, collect_pages}
use zulu_os.Elf.Flags.{among, allows}
use zulu_os.Elf.Pages.{Low, left_by, page_list, pages_lem, collect_pages_lem}

module _ (P : Paging) (O : Object P) where
  -- Some segment has the page.
  abbrev pub touched : List (ElfSegment P O) → ℕ → Bool
  touched [] q = false
  touched (s ∷ ss) q = among q (page_list s.addr) || touched ss q

  abbrev pub page_total : List (ElfSegment P O) → ℕ
  page_total [] = 0
  page_total (s ∷ ss) = length (page_list s.addr) + page_total ss

  abbrev pub AllPresent : List (ElfSegment P O) → Type 0
  AllPresent [] = Unit {0}
  AllPresent (s ∷ ss) = (P.contains s.flags present ≡ true) × AllPresent ss

  abbrev has : List (ℕ × P.Flags) → ℕ → Bool
  has table q = elim (lookup q table) [ none ↦ false | some flags ↦ true ]

  -- What holds of a table that was filled from `before` with pages that `new` tells.
  record Filled (before after : List (ℕ × P.Flags)) (new : ℕ → Bool) (size : ℕ) : Type 0 where
    map_still : IsMap before → IsMap after
    keys : (q : ℕ) → has after q ≡ new q || has before q
    larger : length after ≤ length before + size

  add_page-Filled :
      (flags : P.Flags) (page : ℕ) (table : List (ℕ × P.Flags))
      → Filled table (add_page P O flags page table) (λ q. page == q) 1
  unfolding add_page
  add_page-Filled flags page table = elim (Option-cases (lookup page table)) [
    | inl new ↦
        rw (new, add_page)
          (record {
            map_still = insert-IsMap page flags table;
            keys = λ q. ground (arith, lookup-insert page q flags table);
            larger = length-insert page flags table;
          })
    | inr (current, old) ↦
        rw (old, add_page)
          (record {
            map_still = insert-IsMap page (merge_flags P O current flags) table;
            keys = λ q. ground (arith, lookup-insert page q (merge_flags P O current flags) table);
            larger = length-insert page (merge_flags P O current flags) table;
          })
  ]

  add_pages-Filled :
      (flags : P.Flags) (its_pages : List ℕ) (table : List (ℕ × P.Flags))
      → Filled table
          (add_pages P O flags its_pages table)
          (λ q. among q its_pages)
          (length its_pages)
  unfolding add_pages
  add_pages-Filled flags [] table = record {
    map_still = λ ok. ok;
    keys = λ q. refl;
    larger = omega arith;
  }
  add_pages-Filled flags (page ∷ rest) table =
      let one = add_page-Filled flags page table in
      let more = add_pages-Filled flags rest (add_page P O flags page table) in
      record {
        map_still = λ ok. more.map_still (one.map_still ok);
        keys = λ q. ground (arith, one.keys q, more.keys q);
        larger = omega (arith, one.larger, more.larger);
      }

  collect_pages-Filled :
      (ss : List (ElfSegment P O)) (table table' : List (ℕ × P.Flags))
      → Low P O ss
      → collect_pages P O ss table ≡ some table'
      → Filled table table' (touched ss) (page_total ss)
  unfolding collect_pages
  collect_pages-Filled [] table table' low e =
      let same : table ≡ table' = cc in
      rw (sym same) (record { map_still = λ ok. ok; keys = λ q. refl; larger = omega arith })
  collect_pages-Filled (s ∷ ss) table table' low e =
      let one = add_pages-Filled s.flags (page_list s.addr) table in
      let more =
        collect_pages-Filled ss (add_pages P O s.flags (page_list s.addr) table) table' low.1
          (rw ((pages_lem P O s.addr low.0).0) at e) in
      record {
        map_still = λ ok. more.map_still (one.map_still ok);
        keys = λ q. ground (arith, one.keys q, more.keys q);
        larger = omega (arith, one.larger, more.larger);
      }

  left_by_present :
      (q : ℕ) (ss : List (ElfSegment P O)) (b : Bool)
      → AllPresent ss
      → left_by P O present q ss b ≡ touched ss q || b
  unfolding flag_number
  left_by_present q [] b ok = refl
  left_by_present q (s ∷ ss) b ok =
      ground (arith, left_by_present q ss true ok.1, left_by_present q ss b ok.1)

  -- The table of a program: a map with the pages of the segments, all of them present.
  pub record IsTable (ss : List (ElfSegment P O)) (table : List (ℕ × P.Flags)) : Type 0 where
    pub is_map : IsMap table
    pub key : (q : ℕ) (flags : P.Flags) → lookup q table ≡ some flags → touched ss q ≡ true
    pub size : length table ≤ page_total ss
    pub is_present : (q : ℕ) → touched ss q ≡ true → allows P O table q present ≡ true

  pub collect_pages-IsTable :
      (ss : List (ElfSegment P O))
      → Low P O ss
      → AllPresent ss
      → (table : List (ℕ × P.Flags)) × (collect_pages P O ss [] ≡ some table) × IsTable ss table
  unfolding lookup
  collect_pages-IsTable ss low ok =
      let (table, e, l) = collect_pages_lem P O ss [] low in
      let f = collect_pages-Filled ss [] table low e in
      (
        table,
        e,
        record {
          is_map = f.map_still tt;
          key = λ q flags found. ground (arith, f.keys q);
          size = omega (arith, f.larger);
          is_present =
              λ q t. ground (arith, l q present, left_by_present q ss (allows P O [] q present) ok);
        },
      )
