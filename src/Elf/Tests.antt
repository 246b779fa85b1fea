-- ===== src/Elf/Tests.antt =====
-- The loader at a program of two segments that share a page.
use zulu_os.Base.{ℕ, ◌*◌, ◌/◌, ◌≤◌, ◌<◌, ◌≡◌, refl, Bool, List, [], ◌∷◌, none, some, arith, map}
use zulu_os.Paging.{Flag, no_execute}
use zulu_os.Syscall.Samples.{machine}
use zulu_os.Elf.{
  ElfSegment, ElfFile, load, flag_number, segment_flags, collect_pages, relocate, default_text_addr,
}
use zulu_os.Elf.Flags.{allows}
use zulu_os.Elf.Pages.{collect_pages_nx_last}
use zulu_os.Elf.Moves.{relocate_lem, move_segment, target}
use zulu_os.Elf.Samples.{bit_flags}

-- The text, 0x1800 bytes at 0x400000, and the data behind it.
abbrev text_segment : ElfSegment machine bit_flags
text_segment = record {
  ty = load;
  align = 4096;
  flags = segment_flags machine bit_flags 5;
  file_start = 0;
  file_end = 0x1800;
  addr = record { start = 0x400000; len = 0x1800; original_start = 0x400000 };
}

abbrev data_segment : ElfSegment machine bit_flags
data_segment = record {
  ty = load;
  align = 4096;
  flags = segment_flags machine bit_flags 6;
  file_start = 0x1800;
  file_end = 0x1900;
  addr = record { start = 0x401800; len = 0x100; original_start = 0x401800 };
}

collect_pages_nx_last_example :
    (table : List (ℕ × (Flag → Bool))) × (collect_pages machine bit_flags
        (text_segment ∷ data_segment ∷ [])
        []
      ≡ some table)
    × ((b : ℕ)
        → 0x401800 ≤ b
        → b < 0x401900
        → allows machine bit_flags table (b / 4096 * 4096) no_execute
          ≡ segment_flags machine bit_flags 6 no_execute)
collect_pages_nx_last_example =
    collect_pages_nx_last machine bit_flags (text_segment ∷ []) data_segment
      (omega arith, (omega arith, tt))

abbrev program : ElfFile machine bit_flags
program = record { segments = text_segment ∷ data_segment ∷ []; entry_point = 0x400010 }

text_found :
    default_text_addr machine bit_flags none (text_segment ∷ data_segment ∷ []) ≡ some 0x400000
unfolding default_text_addr segment_flags flag_number
text_found = refl

relocate_lem_example :
    (relocate machine bit_flags program
      ≡ some (record {
        segments = map (move_segment machine bit_flags 0x400000) (text_segment ∷ data_segment ∷ []);
        entry_point = 0x660010;
      }))
    × (target 0x400000 0x400000 ≡ 0x660000)
relocate_lem_example =
    relocate_lem machine bit_flags program 0x400000 text_found (omega arith)
      (omega arith, omega arith, omega arith)
      ((omega arith, omega arith, omega arith), ((omega arith, omega arith, omega arith), tt))
