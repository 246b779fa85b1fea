-- ===== src/Elf/Load/Placed.antt =====
-- A whole program in memory (`load` of kernel/src/elf/mod.rs).
use zulu_os.Base.{
  ℕ, ◌+◌, ◌-◌, ◌*◌, ◌/◌, ◌≤◌, ◌<◌, ◌^◌, subst, ◌≡◌, refl, sym, ◌∙◌, ap, Bool, true, false, List, [],
  ◌∷◌, ◌++◌, Option, none, some, if◌then◌else◌, arith, length, usize_mod,
}
use zulu_os.Tasks.Maps.{lookup, by_key, IsMap, by_key-IsMap, lookup-by_key, length-by_key}
use zulu_os.Paging.{Paging, Flag, writable}
use zulu_os.Mapping.{PageMapper}
use zulu_os.Elf.{ProgramHeader, read_segments, relocate, Object, ElfSegment, ElfFile, collect_pages}
use zulu_os.Elf.Pages.{Low, Low-middle, pages_lem}
use zulu_os.Alloc.{BumpAllocator, Layout}
use zulu_os.Alloc.Requests.{serve, AllValid, takes, asked, serve_lem}
use zulu_os.Elf.Load.{is_load, keys, place_program, load_program}
use zulu_os.Elf.Load.Table.{touched, page_total, AllPresent, collect_pages-IsTable}
use zulu_os.Elf.Load.Mapped.{open_flags, map_table_lem, final_flags, protect_table_lem}
use zulu_os.Elf.Load.Opened.{opened, opened-Alone, opened-CanWrite, final-contains}
use zulu_os.Elf.Load.Copied.{
  CanWrite, covers, file_byte, loaded, loaded_last, AllCopied, copy_segments_lem,
}

module _ (P : Paging) (O : Object P) (M : PageMapper P) where
  open M use {S, flags_of, byte_at, frames_left, Free}
  open P use {contains}

  -- A loaded segment's bytes lie in the file, and in its memory.
  abbrev pub InFile : List ℕ → List (ElfSegment P O) → Type 0
  InFile bytes [] = Unit {0}
  InFile bytes (s ∷ ss) =
      (is_load s.ty ≡ true
        → (s.file_start ≤ s.file_end)
          × (s.file_end ≤ length bytes)
          × (s.file_end - s.file_start ≤ s.addr.len))
      × InFile bytes ss

  -- The segments end below 2 ^ 47, are readable as the loader makes them, and lie in the file; their pages
  -- are free, there are four frames for each, and no frame that is still to come is in use.
  pub record CanLoad (bytes : List ℕ) (ss : List (ElfSegment P O)) (s : S) : Type 0 where
    pub low : Low P O ss
    pub all_present : AllPresent P O ss
    pub in_file : InFile bytes ss
    pub free : (q : ℕ) → touched P O ss q ≡ true → Free s q
    pub room : 4 * page_total P O ss ≤ frames_left s
    pub sound : M.Sound s

  -- The map of these pages fits into so much of the heap.
  pub record MapFits (space : ℕ) (pages : List ℕ) : Type 0 where
    pub inserts : AllValid 0 (O.map_requests pages)
    pub drops : AllValid (takes (O.map_requests pages)) (O.map_drop pages)
    pub fits : asked (O.map_requests pages) + asked (O.map_drop pages) ≤ space

  -- It does for the pages of these segments.
  abbrev pub PagesFit : ℕ → List (ElfSegment P O) → Type 0
  PagesFit space ss =
      (table : List (ℕ × P.Flags))
      → collect_pages P O ss [] ≡ some table
      → MapFits space (keys P O M table)

  -- No segment covers the address.
  abbrev pub Uncovered : List (ElfSegment P O) → ℕ → Type 0
  Uncovered [] b = Unit {0}
  Uncovered (s ∷ ss) b = (covers P O M s b ≡ false) × Uncovered ss b

  loaded-Uncovered :
      (bytes : List ℕ) (ss : List (ElfSegment P O)) (b v : ℕ)
      → Uncovered ss b
      → loaded P O M bytes ss b v ≡ v
  loaded-Uncovered bytes [] b v un = refl
  loaded-Uncovered bytes (s ∷ ss) b v un =
      let kept : (if covers P O M s b then file_byte P O M bytes s b else v) ≡ v =
        ground (arith, un.0) in
      ap (loaded P O M bytes ss b) kept ∙ loaded-Uncovered bytes ss b v un.1

  covered-touched :
      (s : ElfSegment P O) (ss : List (ElfSegment P O)) (b : ℕ)
      → s.addr.start + s.addr.len < 2 ^ 47
      → (is_load s.ty ≡ true → s.file_end - s.file_start ≤ s.addr.len)
      → covers P O M s b ≡ true
      → touched P O (s ∷ ss) (b / 4096 * 4096) ≡ true
  covered-touched s ss b low fits cov = ground (arith, ((pages_lem P O s.addr low).1) b, fits)

  all_copied :
      (bytes : List ℕ) (ss : List (ElfSegment P O)) (s : S)
      → Low P O ss
      → InFile bytes ss
      → ((a : ℕ) → touched P O ss (a / 4096 * 4096) ≡ true → CanWrite P O M s a)
      → AllCopied P O M bytes s ss
  all_copied bytes [] s low ok can = tt
  all_copied bytes (first ∷ ss) s low ok can = (
    λ yes_load. record {
      ordered = (ok.0 yes_load).0;
      in_file = (ok.0 yes_load).1;
      can = λ a cov. can a (covered-touched first ss a low.0 (λ l. (ok.0 l).2) cov);
    },
    all_copied bytes ss s low.1 ok.1 (λ a t. can a (ground arith)),
  )

  pub InFile-middle :
      (bytes : List ℕ) (before after : List (ElfSegment P O)) (s : ElfSegment P O)
      → InFile bytes (before ++ s ∷ after)
      → is_load s.ty ≡ true
      → s.file_end - s.file_start ≤ s.addr.len
  InFile-middle bytes [] after s ok l = (ok.0 l).2
  InFile-middle bytes (first ∷ before) after s ok l = InFile-middle bytes before after s ok.1 l

  touched_behind :
      (before ss : List (ElfSegment P O)) (q : ℕ)
      → touched P O ss q ≡ true
      → touched P O (before ++ ss) q ≡ true
  touched_behind [] ss q t = t
  touched_behind (first ∷ before) ss q t = ground (arith, touched_behind before ss q t)

  -- A program that can be loaded is, where the map of its pages fits into the rest of the heap:
  -- `place_program` does not panic, and returns the file as it was; of the heap it leaves what lay below
  -- the counter, and the counter stays in the heap. Every page of the table of pages ends with just the
  -- flags of the table, on a frame that no table and no other page has; no other page is touched,
  -- and those that had a frame of their own keep it so. Every byte that a loaded segment has in the
  -- file, and that no later segment covers, is in memory at its address.
  pub place_program_lem :
      (checks : Bool) (bytes : List ℕ) (elf_file : ElfFile P O) (a : BumpAllocator) (s : S)
      → CanLoad bytes elf_file.segments s
      → PagesFit (a.heap_end - a.next) elf_file.segments
      → 0 < a.next
      → a.next ≤ a.heap_end
      → a.heap_end < usize_mod
      → (table : List (ℕ × P.Flags)) × (s' : S) × (next : ℕ) × (collect_pages P O elf_file.segments
            []
          ≡ some table)
        × (place_program P O M checks bytes elf_file a s
            ≡ some ((elf_file, record a { next = next }), s'))
        × (a.next ≤ next)
        × (next ≤ a.heap_end)
        × ((q : ℕ) (flags : P.Flags)
            → lookup q table ≡ some flags
            → (g : P.Flags) × (flags_of s' q ≡ some g)
              × ((f : Flag) → contains g f ≡ contains flags f))
        × ((q : ℕ) → lookup q table ≡ none → flags_of s' q ≡ flags_of s q)
        × ((q : ℕ) → touched P O elf_file.segments q ≡ true → M.Alone s' q)
        × ((q : ℕ) → lookup q table ≡ none → M.Alone s q → M.Alone s' q)
        × ((before after : List (ElfSegment P O)) (section : ElfSegment P O) (b : ℕ)
            → elf_file.segments ≡ before ++ section ∷ after
            → covers P O M section b ≡ true
            → Uncovered after b
            → byte_at s' b ≡ file_byte P O M bytes section b)
  unfolding place_program
  place_program_lem checks bytes elf_file a s c fit pos inside top =
      let ss : List (ElfSegment P O) = elf_file.segments in
      let (table, ec, ok) = collect_pages-IsTable P O ss c.low c.all_present in
      let pages : List ℕ = keys P O M table in
      let m : MapFits (a.heap_end - a.next) pages = fit table ec in
      let (nodes, n1, h1, held, counted, from1, to1) =
        serve_lem checks (O.map_requests pages) [] a a.next tt m.inserts pos (omega arith)
          (omega (arith, m.fits)) top in
      let given : length nodes ≡ takes (O.map_requests pages) = omega (arith, counted) in
      let (left, n2, h2, kept, counted2, from2, to2) =
        serve_lem checks (O.map_drop pages) nodes (record a { next = n1 }) a.next held
          (subst (λ n. AllValid n (O.map_drop pages)) (sym given) m.drops) pos from1
          (omega (arith, m.fits, to1)) top in
      let map_ok : IsMap (by_key table) = by_key-IsMap table ok.is_map in
      let (s1, e1, f1, alone, others) =
        map_table_lem P O M (by_key table) s map_ok c.sound
          (λ q flags found. c.free q (ok.key q flags (sym (lookup-by_key q table) ∙ found)))
          (omega (arith, length-by_key table, ok.size, c.room)) in
      let (s2, e2, f2, l2, b2) = copy_segments_lem P O M bytes ss s1 (
        all_copied bytes ss s1 c.low c.in_file
          (λ a t. opened-CanWrite P O M table ss s s1 a ok f1 alone t)) in
      let open_now = λ (q : ℕ) (flags : P.Flags) (found : lookup q table ≡ some flags).
        f2 q ∙ opened P O M table q flags (flags_of s q) (flags_of s1 q) (f1 q) found in
      let (s3, e3, f3, l3, b3) = protect_table_lem P O M (by_key table) s2 map_ok (λ q flags found.
        (
          O.union flags (O.only writable),
          open_now q flags (sym (lookup-by_key q table) ∙ found),
        )) in
      (
        table,
        s3,
        n2,
        ec,
        rw (ec, h1, e1, e2, e3, h2) refl,
        from2,
        omega (arith, m.fits, to1, to2),
        λ q flags found. final-contains P O M flags (flags_of s3 q) (
            f3 q
            ∙ ap (λ o. final_flags P O M o (flags_of s2 q)) (lookup-by_key q table ∙ found)
            ∙ ap (λ o. final_flags P O M (some flags) o) (open_now q flags found)),
        λ q new.
            f3 q
            ∙ ap (λ o. final_flags P O M o (flags_of s2 q)) (lookup-by_key q table ∙ new)
            ∙ f2 q
            ∙ f1 q
            ∙ ap (λ o. open_flags P O M o (flags_of s q)) (lookup-by_key q table ∙ new),
        λ q t. l3 q (l2 q (opened-Alone P O M table ss s1 q ok alone t)),
        λ q new was. l3 q (l2 q (others q (lookup-by_key q table ∙ new) was)),
        λ before after section b e cov un.
            let t : touched P O ss (b / 4096 * 4096) ≡ true =
              ap (λ l. touched P O l (b / 4096 * 4096)) e
              ∙ touched_behind before (section ∷ after) (b / 4096 * 4096) (
                  covered-touched section after b
                    (Low-middle P O before after section (subst (Low P O) e c.low))
                    (InFile-middle bytes before after section (subst (InFile bytes) e c.in_file))
                    cov) in
            let w = opened-CanWrite P O M table ss s s1 b ok f1 alone t in
            b3 b
            ∙ b2 b (w.0, w.1)
            ∙ ap (λ l. loaded P O M bytes l b (byte_at s1 b)) e
            ∙ loaded_last P O M bytes before after section b (byte_at s1 b) cov
                (loaded-Uncovered bytes after b (file_byte P O M bytes section b) un),
      )

  -- `load` of a file that parses, and whose program is moved to `elf_file`, comes to `place_program` of it,
  -- where the heap serves the vector.
  pub load_program-place_program :
      (parse : List ℕ → Option (ℕ × List ProgramHeader)) (checks : Bool) (bytes : List ℕ)
      (a a1 : BumpAllocator) (elements : List (ℕ × Layout)) (s : S) (entry : ℕ)
      (headers : List ProgramHeader) (segments : List (ElfSegment P O)) (elf_file : ElfFile P O)
      → parse bytes ≡ some (entry, headers)
      → read_segments P O checks headers ≡ some segments
      → serve checks (O.vec_requests (length elf_file.segments)) [] a ≡ some (elements, a1)
      → entry < 2 ^ 47
      → relocate P O (record { segments = segments; entry_point = entry }) ≡ some elf_file
      → load_program P O M parse checks bytes a s ≡ place_program P O M checks bytes elf_file a1 s
  unfolding load_program
  load_program-place_program parse checks bytes a a1 elements s entry headers segments elf_file
        parsed read served low moved =
      rw (parsed, read, P.try_new_low entry low, moved, served) refl
