-- ===== src/Elf/Load/Tests.antt =====
-- The loader at a program of one segment.
use zulu_os.Base.{ℕ, ◌≤◌, arith, ◌≡◌, Bool, true, List, [], ◌∷◌, ◌++◌, none, some}
use zulu_os.Tasks.Maps.{lookup}
use zulu_os.Paging.{Flag}
use zulu_os.Syscall.Samples.{machine}
use zulu_os.Mapping.Samples.{table_mapper, empty_table, Table}
use zulu_os.Elf.{ElfSegment, collect_pages}
use zulu_os.Elf.Samples.{bit_flags}
use zulu_os.Elf.Load.{place_program}
use zulu_os.Alloc.{BumpAllocator}
use zulu_os.Elf.Load.Table.{touched}
use zulu_os.Elf.Load.Samples.{small-MapFits, file_bytes, text, program, program-CanLoad}
use zulu_os.Elf.Load.Copied.{covers, file_byte}
use zulu_os.Elf.Load.Placed.{Uncovered, place_program_lem}

abbrev small_heap : BumpAllocator
small_heap = record { heap_start = 4096; heap_end = 8192; next = 4112 }

place_program_lem_example :
    (table : List (ℕ × (Flag → Bool))) × (s' : Table) × (next : ℕ) × (collect_pages machine
        bit_flags
        (text 0x660000 ∷ [])
        []
      ≡ some table)
    × (place_program machine bit_flags table_mapper true file_bytes program small_heap empty_table
        ≡ some ((program, record small_heap { next = next }), s'))
    × (4112 ≤ next)
    × (next ≤ 8192)
    × ((q : ℕ) (flags : Flag → Bool)
        → lookup q table ≡ some flags
        → (g : Flag → Bool) × (s'.flags q ≡ some g) × ((f : Flag) → g f ≡ flags f))
    × ((q : ℕ) → lookup q table ≡ none → s'.flags q ≡ none)
    × ((q : ℕ) → touched machine bit_flags (text 0x660000 ∷ []) q ≡ true → Unit {0})
    × ((q : ℕ) → lookup q table ≡ none → Unit {0} → Unit {0})
    × ((before after : List (ElfSegment machine bit_flags)) (section : ElfSegment machine bit_flags)
          (b : ℕ)
        → text 0x660000 ∷ [] ≡ before ++ section ∷ after
        → covers machine bit_flags table_mapper section b ≡ true
        → Uncovered machine bit_flags table_mapper after b
        → s'.memory b ≡ file_byte machine bit_flags table_mapper file_bytes section b)
place_program_lem_example =
    place_program_lem machine bit_flags table_mapper true file_bytes program small_heap empty_table
      program-CanLoad (λ table e. small-MapFits table_mapper 4080 (omega arith)) (omega arith)
      (omega arith) (omega arith)
