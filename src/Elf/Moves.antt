-- ===== src/Elf/Moves.antt =====
-- The move of a program to a fixed address, for the debugger (`ElfFile::remap` of
-- kernel/src/elf/types.rs and its call in kernel/src/elf/mod.rs).
use zulu_os.Base.{
  ℕ, ◌+◌, ◌-◌, ◌%◌, ◌^◌, ◌<◌, ◌≤◌, ◌≡◌, refl, ◌∙◌, ap, List, [], ◌∷◌, none, some, arith, map,
  usize_mod,
}
use zulu_os.Paging.{Paging}
use zulu_os.Elf.{
  Object, ElfSegment, ElfFile, load_text_section_at, moved, remap_destination, remap_segments,
  remap, relocate, default_text_addr,
}

-- Where an address goes when the text at `text` goes to its place.
abbrev pub target : ℕ → ℕ → ℕ
target text a = a + load_text_section_at - text

abbrev pub Fits : ℕ → ℕ → Type 0
Fits text a = (text ≤ a + load_text_section_at) × (a < 2 ^ 47) × (target text a < 2 ^ 47)

module _ (P : Paging) (O : Object P) where
  moved_lem : (text a : ℕ) → text < 2 ^ 47 → Fits text a → moved P O text a ≡ some (target text a)
  unfolding moved
  moved_lem text a low fits =
      let sum : (a + load_text_section_at + (usize_mod - text)) % usize_mod ≡ target text a =
        omega (arith, fits.0, fits.1, fits.2) in
      ap P.try_new sum ∙ P.try_new_low (target text a) fits.2

  abbrev pub move_segment : ℕ → ElfSegment P O → ElfSegment P O
  move_segment text s = record s { addr = record s.addr { start = target text s.addr.start } }

  abbrev pub AllFit : ℕ → List (ElfSegment P O) → Type 0
  AllFit text [] = Unit {0}
  AllFit text (s ∷ ss) = Fits text s.addr.start × AllFit text ss

  remap_segments_lem :
      (text : ℕ) (ss : List (ElfSegment P O))
      → text < 2 ^ 47
      → AllFit text ss
      → remap_segments P O (moved P O text) ss ≡ some (map (move_segment text) ss)
  unfolding remap_segments remap_destination
  remap_segments_lem text [] low fit = refl
  remap_segments_lem text (s ∷ ss) low fit =
      rw (moved_lem text s.addr.start low fit.0, remap_segments_lem text ss low fit.1) refl

  -- Where the text is found at `text`, and every address stays in the lower half of the address
  -- space, the move does not panic: it adds the same distance to the entry point and to the start
  -- of every segment, the one that takes `text` to 0x660000, and changes nothing else.
  pub relocate_lem :
      (elf : ElfFile P O) (text : ℕ)
      → default_text_addr P O none elf.segments ≡ some text
      → text < 2 ^ 47
      → Fits text elf.entry_point
      → AllFit text elf.segments
      → (relocate P O elf
          ≡ some (record {
            segments = map (move_segment text) elf.segments;
            entry_point = target text elf.entry_point;
          }))
        × (target text text ≡ 0x660000)
  unfolding relocate remap
  relocate_lem elf text found low entry fit = (
    rw
        (
          found,
          moved_lem text elf.entry_point low entry,
          remap_segments_lem text elf.segments low fit,
        )
        refl,
    omega arith,
  )
