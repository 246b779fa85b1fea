-- ===== src/Elf/Load.antt =====
-- `load` of kernel/src/elf/mod.rs, from the bytes of the file to the program in memory. A panic is
-- `none`.
pub mod Table
pub mod Mapped
pub mod Copied
pub mod Opened
pub mod Placed
pub mod Granted
pub mod Samples
mod Tests
use zulu_os.Base.{
  ℕ, zero, suc, ◌+◌, ◌-◌, Bool, true, false, ◌&&◌, List, [], ◌∷◌, Option, none, some, ◌>>=◌, leb,
  length, map, get_elem?, if◌then◌else◌,
}
use zulu_os.Alloc.{BumpAllocator}
use zulu_os.Alloc.Requests.{serve}
use zulu_os.Tasks.Maps.{by_key}
use zulu_os.Paging.{Paging, writable}
use zulu_os.Mapping.{PageMapper, map_page}
use zulu_os.Elf.{
  Object, ProgramHeader, ElfSegmentType, load, ElfSegment, ElfFile, read_segments, relocate,
  collect_pages, null, dynamic, interp, note, shlib, phdr, tls, loos, gnu_eh_frame, gnu_stack,
  gnu_relro, hios, loproc, hiproc,
}

unfoldable pub is_load : ElfSegmentType → Bool
is_load = elim [
  | null ↦ false
  | load ↦ true
  | dynamic ↦ false
  | interp ↦ false
  | note ↦ false
  | shlib ↦ false
  | phdr ↦ false
  | tls ↦ false
  | loos ↦ false
  | gnu_eh_frame ↦ false
  | gnu_stack ↦ false
  | gnu_relro ↦ false
  | hios ↦ false
  | loproc ↦ false
  | hiproc ↦ false
]

module _ (P : Paging) (O : Object P) (M : PageMapper P) where
  open M use {S, update_flags, write_byte}

  -- The loop that maps the pages, writable for now.
  pub map_table : List (ℕ × P.Flags) → S → Option S
  map_table [] s = some s
  map_table ((page, original_flags) ∷ rest) s = do
    s' ← map_page P M page (O.union original_flags (O.only writable)) s
    map_table rest s'

  -- `copy_from_slice`, byte by byte: `n` bytes of the file, from `src` on, to `dst`
  pub copy_bytes : List ℕ → ℕ → ℕ → ℕ → S → Option S
  copy_bytes bytes zero src dst s = some s
  copy_bytes bytes (suc n) src dst s = do
    value ← get_elem? bytes src
    s' ← write_byte dst value s
    copy_bytes bytes n (src + 1) (dst + 1) s'

  -- The body of the loop over the segments; a range that the file does not have is a panic.
  pub copy_segment : List ℕ → ElfSegment P O → S → Option S
  unfolding copy_bytes
  copy_segment bytes section s =
      if is_load section.ty
      then (if leb section.file_start section.file_end && leb section.file_end (length bytes)
          then copy_bytes bytes (section.file_end - section.file_start) section.file_start
              section.addr.start s
          else none)
      else some s

  pub copy_segments : List ℕ → List (ElfSegment P O) → S → Option S
  copy_segments bytes [] s = some s
  copy_segments bytes (section ∷ segments) s = do
    s' ← copy_segment bytes section s
    copy_segments bytes segments s'

  -- The loop that takes the write permission back.
  pub protect_table : List (ℕ × P.Flags) → S → Option S
  protect_table [] s = some s
  protect_table ((page, original_flags) ∷ rest) s = do
    s' ← if P.contains original_flags writable then some s else update_flags page original_flags s
    protect_table rest s'

  -- The pages of the map, in the order in which they came into it.
  abbrev pub keys : List (ℕ × P.Flags) → List ℕ
  keys table = map (λ entry. entry.0) table

  -- What `load` does with the program once it is moved; the map of the pages takes memory of the kernel's
  -- heap until the end.
  pub place_program :
      Bool → List ℕ → ElfFile P O → BumpAllocator → S → Option ((ElfFile P O × BumpAllocator) × S)
  unfolding map_table copy_segments protect_table
  place_program checks bytes elf_file a s = do
    pages_to_map ← collect_pages P O elf_file.segments []
    (nodes, a1) ← serve checks (O.map_requests (keys pages_to_map)) [] a
    s1 ← map_table (by_key pages_to_map) s
    s2 ← copy_segments bytes elf_file.segments s1
    s3 ← protect_table (by_key pages_to_map) s2
    (held, a2) ← serve checks (O.map_drop (keys pages_to_map)) nodes a1
    some ((elf_file, a2), s3)

  -- `load`; `parse` is the crate's: the entry point and the program headers of a file, or an error. The
  -- vector of the segments takes memory of the heap before the map does, and keeps it; to move the program
  -- takes none, so that it stands here behind the move.
  pub load_program :
      (List ℕ → Option (ℕ × List ProgramHeader))
      → Bool
      → List ℕ
      → BumpAllocator
      → S
      → Option ((ElfFile P O × BumpAllocator) × S)
  unfolding place_program
  load_program parse checks bytes a s = do
    parsed ← parse bytes
    segments ← read_segments P O checks parsed.1
    entry_point ← P.try_new parsed.0
    elf_file ← relocate P O (record { segments = segments; entry_point = entry_point })
    (elements, a1) ← serve checks (O.vec_requests (length elf_file.segments)) [] a
    place_program checks bytes elf_file a1 s
