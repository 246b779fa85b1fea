-- ===== src/Boot/Loads.antt =====
-- The loader as `kernel_main` of kernel/src/main.rs calls it, on the heap that the kernel has then.
use zulu_os.Base.{
  ℕ, ◌+◌, ◌-◌, ◌^◌, ◌<◌, ◌≤◌, ◌≡◌, ◌∙◌, Bool, true, false, List, [], ◌∷◌, ◌++◌, Option, some, arith,
  length,
}
use zulu_os.Tasks.Maps.{lookup}
use zulu_os.Paging.{Paging, Flag}
use zulu_os.Mapping.{PageMapper}
use zulu_os.Alloc.{BumpAllocator, heap_start_address, heap_size}
use zulu_os.Alloc.Requests.{serve_lem}
use zulu_os.Elf.{Object, ProgramHeader, ElfSegment, ElfFile, read_segments, relocate, collect_pages}
use zulu_os.Elf.Load.{load_program}
use zulu_os.Elf.Load.Table.{touched}
use zulu_os.Elf.Load.Copied.{covers, file_byte}
use zulu_os.Elf.Load.Placed.{
  CanLoad, PagesFit, Uncovered, place_program_lem, load_program-place_program,
}
use zulu_os.Segments.{Descriptors}
use zulu_os.Interrupts.{ChainedPics}
use zulu_os.Boot.Ready.{HasRoom, untouched}

-- The heap behind the data of the thread, up to the counter.
abbrev pub heap_up_to : ℕ → BumpAllocator
heap_up_to next = record {
  heap_start = heap_start_address;
  heap_end = heap_start_address + heap_size;
  next = next;
}

module _ (P : Paging) (O : Object P) (M : PageMapper P) (D : Descriptors) (C : ChainedPics) where
  open M use {S, flags_of, byte_at}

  -- Where there is room for the program, in memory and on the heap, `load` of a file that parses and can be
  -- moved does what `place_program_lem` says.
  pub loads :
      (parse : List ℕ → Option (ℕ × List ProgramHeader)) (checks : Bool) (bytes : List ℕ)
      (entry : ℕ) (headers : List ProgramHeader) (segments : List (ElfSegment P O))
      (elf_file : ElfFile P O) (s0 s2 : S)
      → parse bytes ≡ some (entry, headers)
      → read_segments P O checks headers ≡ some segments
      → entry < 2 ^ 47
      → relocate P O (record { segments = segments; entry_point = entry }) ≡ some elf_file
      → HasRoom P O M D C bytes elf_file.segments s0
      → CanLoad P O M bytes elf_file.segments s2
      → (table : List (ℕ × P.Flags)) × (s3 : S) × (next : ℕ) × (collect_pages P O elf_file.segments
            []
          ≡ some table)
        × (load_program P O M parse checks bytes (heap_up_to (heap_start_address + 16)) s2
            ≡ some ((elf_file, heap_up_to next), s3))
        × (heap_start_address + 16 ≤ next)
        × (next ≤ heap_start_address + heap_size)
        × ((q : ℕ) (flags : P.Flags)
            → lookup q table ≡ some flags
            → (g : P.Flags) × (flags_of s3 q ≡ some g)
              × ((f : Flag) → P.contains g f ≡ P.contains flags f))
        × ((q : ℕ) → touched P O elf_file.segments q ≡ false → flags_of s3 q ≡ flags_of s2 q)
        × ((q : ℕ) → touched P O elf_file.segments q ≡ true → M.Alone s3 q)
        × ((q : ℕ) → touched P O elf_file.segments q ≡ false → M.Alone s2 q → M.Alone s3 q)
        × ((before after : List (ElfSegment P O)) (section : ElfSegment P O) (b : ℕ)
            → elf_file.segments ≡ before ++ section ∷ after
            → covers P O M section b ≡ true
            → Uncovered P O M after b
            → byte_at s3 b ≡ file_byte P O M bytes section b)
  unfolding heap_start_address heap_size
  loads parse checks bytes entry headers segments elf_file s0 s2 parsed read entry_low moved room
        can =
      let a2 : BumpAllocator = heap_up_to (heap_start_address + 16) in
      let (elements, n3, served, held, counted, from3, to3) =
        serve_lem checks (O.vec_requests (length elf_file.segments)) [] a2 a2.next tt room.vec_valid
          (omega arith) (omega arith) (omega (arith, room.vec_fits)) (omega arith) in
      let a3 : BumpAllocator = heap_up_to n3 in
      let fits : PagesFit P O M (a3.heap_end - a3.next) elf_file.segments = λ table ec.
        let m = room.map_fits table ec in
        record { inserts = m.inserts; drops = m.drops; fits = omega (arith, m.fits, to3) } in
      let (table, s3, n4, ec, ep, from4, to4, own, others, alone, kept, placed) =
        place_program_lem P O M checks bytes elf_file a3 s2 can fits (omega (arith, from3))
          (omega (arith, to3, room.vec_fits)) (omega arith) in
      let off = λ (q : ℕ) (out : touched P O elf_file.segments q ≡ false).
        untouched P O M D C elf_file.segments table q can.low can.all_present ec out in
      (
        table,
        s3,
        n4,
        ec,
        load_program-place_program P O M parse checks bytes a2 a3 elements s2 entry headers segments
              elf_file parsed read served entry_low moved
            ∙ ep,
        omega (arith, from3, from4),
        to4,
        own,
        λ q out. others q (off q out),
        alone,
        λ q out was. kept q (off q out) was,
        placed,
      )
