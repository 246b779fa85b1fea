-- ===== src/Elf.antt =====
-- The loader of kernel/src/elf/mod.rs and types.rs up to the table of the pages to map. A panic
-- is `none`.
pub mod Flags
pub mod Pages
pub mod Moves
pub mod Load
pub mod Samples
mod Tests
use zulu_os.Base.{
  ℕ, ◌+◌, ◌-◌, ◌%◌, ◌≡◌, Bool, true, false, not, ◌||◌, List, [], ◌∷◌, Option, none, some, ◌>>=◌,
  ◌==◌, if◌then◌else◌, bit_and, usize_add, usize_mod,
}
use zulu_os.Tasks.Maps.{lookup, insert}
use zulu_os.Alloc.Requests.{Request}
use zulu_os.Paging.{Paging, Flag, present, writable, user_accessible, no_execute}

pub data ElfSegmentType : Type 0 where
  null load dynamic interp note shlib phdr tls loos gnu_eh_frame gnu_stack gnu_relro hios loproc
        hiproc :
      ElfSegmentType

unfoldable pub is_null : ElfSegmentType → Bool
is_null = elim [
  | null ↦ true
  | load ↦ false
  | dynamic ↦ false
  | interp ↦ false
  | note ↦ false
  | shlib ↦ false
  | phdr ↦ false
  | tls ↦ false
  | loos ↦ false
  | gnu_eh_frame ↦ false
  | gnu_stack ↦ false
  | gnu_relro ↦ false
  | hios ↦ false
  | loproc ↦ false
  | hiproc ↦ false
]

-- The fields of `ProgramHeader64` that the loader reads.
pub record ProgramHeader : Type 0 where
  pub p_type : ℕ
  pub p_flags : ℕ
  pub p_offset : ℕ
  pub p_vaddr : ℕ
  pub p_filesz : ℕ
  pub p_memsz : ℕ
  pub p_align : ℕ

unfoldable pub flag_number : Flag → ℕ
flag_number present = 0
flag_number writable = 1
flag_number user_accessible = 2
flag_number no_execute = 3

-- `PageTableFlags` of the crate `x86_64`, and the constants of `object::elf` with the conversion
-- that `ElfSegmentType` derives from them. What `Vec` and `BTreeMap` of the crate `alloc` ask of the
-- heap: a vector to which so many elements are pushed, a map with these keys inserted in their order,
-- and then the drop of this map.
pub record Object (P : Paging) : Type 1 where
  pub only : Flag → P.Flags
  pub union : P.Flags → P.Flags → P.Flags
  pub set : P.Flags → Flag → Bool → P.Flags
  pub pf_r : ℕ
  pub pf_w : ℕ
  pub pf_x : ℕ
  pub segment_type_of : ℕ → Option ElfSegmentType
  pub vec_requests : ℕ → List Request
  pub map_requests : List ℕ → List Request
  pub map_drop : List ℕ → List Request
  pub contains_only : (f g : Flag) → P.contains (only f) g ≡ (flag_number f == flag_number g)
  pub contains_union :
      (a b : P.Flags) (g : Flag) → P.contains (union a b) g ≡ P.contains a g || P.contains b g
  pub contains_set :
      (a : P.Flags) (f g : Flag) (v : Bool)
      → P.contains (set a f v) g ≡ (if flag_number f == flag_number g then v else P.contains a g)

pub record VirtualMapDestination : Type 0 where
  pub start : ℕ
  pub len : ℕ
  pub original_start : ℕ

abbrev pub load_text_section_at : ℕ
load_text_section_at = 0x660000

module _ (P : Paging) (O : Object P) where
  open P use {contains, try_new, add, page_containing, range_inclusive}
  open O use {only, union, set}

  pub record ElfSegment : Type 0 where
    pub ty : ElfSegmentType
    pub align : ℕ
    pub flags : P.Flags
    pub file_start : ℕ
    pub file_end : ℕ
    pub addr : VirtualMapDestination

  pub record ElfFile : Type 0 where
    pub segments : List ElfSegment
    pub entry_point : ℕ

  -- `parse_segment_flags`, of the bits
  pub segment_flags : ℕ → P.Flags
  segment_flags bit_flags =
      let readable =
        if bit_and bit_flags O.pf_r == 0
        then only present
        else union (only present) (only user_accessible) in
      let as_writable =
        if bit_and bit_flags O.pf_w == 0 then readable else union readable (only writable) in
      if bit_and bit_flags O.pf_x == 0 then union as_writable (only no_execute) else as_writable

  -- The body of the loop over the program headers: a panic, a header that is skipped, or a segment.
  -- `VirtAddr::new` panics where `try_new` fails.
  pub read_segment : Bool → ProgramHeader → Option (Option ElfSegment)
  unfolding segment_flags
  read_segment checks segment = elim (O.segment_type_of segment.p_type) [
    | none ↦ some none
    | some parsed_ty ↦ if is_null parsed_ty || segment.p_memsz == 0 then some none else (do
      start ← try_new segment.p_vaddr
      file_end ← usize_add checks segment.p_offset segment.p_filesz
      some (
          some (record {
            ty = parsed_ty;
            align = segment.p_align;
            flags = segment_flags segment.p_flags;
            file_start = segment.p_offset;
            file_end = file_end;
            addr = record {
              start = start;
              len = segment.p_memsz;
              original_start = segment.p_vaddr;
            };
          })))
  ]

  pub read_segments : Bool → List ProgramHeader → Option (List ElfSegment)
  read_segments checks [] = some []
  read_segments checks (segment ∷ program_headers) = do
    read ← read_segment checks segment
    segments ← read_segments checks program_headers
    some (elim read [ none ↦ segments | some s ↦ s ∷ segments ])

  -- The loop over the segments for the start of the text: the last one that may be executed.
  pub default_text_addr : Option ℕ → List ElfSegment → Option ℕ
  default_text_addr found [] = found
  default_text_addr found (section ∷ sections) =
      let next = if contains section.flags no_execute then found else some section.addr.start in
      default_text_addr next sections

  -- `VirtAddr::new((src.as_u64() as i64 + offset_to_apply) as u64)`; canonical addresses are far
  -- from the bounds of `i64`, so that only the wrap of the last conversion is left.
  pub moved : ℕ → ℕ → Option ℕ
  moved text src = try_new ((src + load_text_section_at + (usize_mod - text)) % usize_mod)

  -- `VirtualMapDestination::remap` and `ElfFile::remap`
  pub remap_destination : (ℕ → Option ℕ) → VirtualMapDestination → Option VirtualMapDestination
  remap_destination f d = do start ← f d.start; some (record d { start = start })

  pub remap_segments : (ℕ → Option ℕ) → List ElfSegment → Option (List ElfSegment)
  remap_segments f [] = some []
  remap_segments f (segment ∷ segments) = do
    addr ← remap_destination f segment.addr
    rest ← remap_segments f segments
    some (record segment { addr = addr } ∷ rest)

  pub remap : (ℕ → Option ℕ) → ElfFile → Option ElfFile
  unfolding remap_segments remap_destination
  remap f elf = do
    entry_point ← f elf.entry_point
    segments ← remap_segments f elf.segments
    some (record { segments = segments; entry_point = entry_point })

  -- The move of the whole file: the text goes to its fixed place.
  pub relocate : ElfFile → Option ElfFile
  unfolding default_text_addr remap moved
  relocate elf = do text ← default_text_addr none elf.segments; remap (moved text) elf

  -- `VirtualMapDestination::pages`
  pub pages : VirtualMapDestination → Option (List ℕ)
  pages d = do
    last ← add d.start d.len
    some (range_inclusive (page_containing d.start) (page_containing last))

  -- The closure of `and_modify`.
  pub merge_flags : P.Flags → P.Flags → P.Flags
  merge_flags current new =
      let joined = union current new in
      if not (contains joined no_execute) || not (contains new no_execute)
      then set joined no_execute false
      else joined

  -- The entry of one page, the loop over the pages of a segment, and the loop over the segments.
  pub add_page : P.Flags → ℕ → List (ℕ × P.Flags) → List (ℕ × P.Flags)
  unfolding merge_flags
  add_page flags page pages_to_map = elim (lookup page pages_to_map) [
    | none ↦ insert page flags pages_to_map
    | some current ↦ insert page (merge_flags current flags) pages_to_map
  ]

  pub add_pages : P.Flags → List ℕ → List (ℕ × P.Flags) → List (ℕ × P.Flags)
  add_pages flags [] pages_to_map = pages_to_map
  add_pages flags (page ∷ rest) pages_to_map =
      add_pages flags rest (add_page flags page pages_to_map)

  -- What the map takes of the heap comes with `place_program` in Elf.Load.
  pub collect_pages : List ElfSegment → List (ℕ × P.Flags) → Option (List (ℕ × P.Flags))
  unfolding pages
  collect_pages [] pages_to_map = some pages_to_map
  collect_pages (segment ∷ segments) pages_to_map = do
    its_pages ← pages segment.addr
    collect_pages segments (add_pages segment.flags its_pages pages_to_map)
