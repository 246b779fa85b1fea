-- ===== src/Elf/Load/Samples.antt =====
-- Two files of one segment each, and the programs that they are: test data for the loader.
use zulu_os.Base.{ℕ, ◌<◌, ◌≤◌, ◌≡◌, refl, true, List, [], ◌∷◌, some, arith, usize_add}
use zulu_os.Syscall.Samples.{machine, low_address}
use zulu_os.Syscall.Program.{test_text}
use zulu_os.Paging.{user_accessible}
use zulu_os.Mapping.{PageMapper}
use zulu_os.Mapping.Samples.{table_mapper, empty_table}
use zulu_os.Elf.{
  ProgramHeader, ElfSegment, ElfFile, load, flag_number, is_null, segment_flags, read_segment,
  read_segments, default_text_addr, moved, remap_destination, remap_segments, remap, relocate,
}
use zulu_os.Elf.Samples.{bit_flags}
use zulu_os.Elf.Load.{is_load}
use zulu_os.Elf.Load.Table.{touched}
use zulu_os.Elf.Load.Placed.{CanLoad, MapFits}
use zulu_os.Alloc.Align.{IsLayout}

pub small-IsLayout : (n : ℕ) → 0 < n → n < 4096 → IsLayout (record { size = n; align = 8 })
small-IsLayout n pos lt = record {
  bits = 3;
  bits_lt = omega arith;
  align_pow = refl;
  size_pos = pos;
  size_fits = omega arith;
}

pub small-MapFits :
    (M : PageMapper machine) (space : ℕ) {pages : List ℕ}
    → 192 ≤ space
    → MapFits machine bit_flags M space pages
small-MapFits M space h = record {
  inserts = (small-IsLayout 192 (omega arith) (omega arith), tt);
  drops = (omega arith, tt);
  fits = omega arith;
}

abbrev pub file_bytes : List ℕ
file_bytes = 0x90 ∷ 0x91 ∷ 0x92 ∷ 0x93 ∷ 0x94 ∷ 0x95 ∷ []

abbrev pub headers : List ProgramHeader
headers =
    (record {
      p_type = 1;
      p_flags = 5;
      p_offset = 2;
      p_vaddr = 0x400000;
      p_filesz = 4;
      p_memsz = 6;
      p_align = 4096;
    })
    ∷ []

abbrev pub text : ℕ → ElfSegment machine bit_flags
text start = record {
  ty = load;
  align = 4096;
  flags = segment_flags machine bit_flags 5;
  file_start = 2;
  file_end = 6;
  addr = record { start = start; len = 6; original_start = 0x400000 };
}

abbrev pub program : ElfFile machine bit_flags
program = record { segments = text 0x660000 ∷ []; entry_point = 0x660000 }

pub headers_read : read_segments machine bit_flags true headers ≡ some (text 0x400000 ∷ [])
unfolding read_segments read_segment is_null low_address usize_add
headers_read = refl

pub text_moved :
    relocate machine bit_flags (record { segments = text 0x400000 ∷ []; entry_point = 0x400000 })
    ≡ some program
unfolding relocate default_text_addr moved remap_destination remap_segments remap segment_flags
    flag_number low_address
text_moved = refl

pub program-CanLoad :
    CanLoad machine bit_flags table_mapper file_bytes (text 0x660000 ∷ []) empty_table
unfolding is_load segment_flags flag_number
program-CanLoad = record {
  low = (omega arith, tt);
  all_present = (refl, tt);
  in_file = (λ l. (omega arith, omega arith, omega arith), tt);
  free = λ q t. refl;
  room = omega arith;
  sound = tt;
}

pub one_page : (q : ℕ) → touched machine bit_flags (text 0x660000 ∷ []) q ≡ true → q ≡ 0x660000
one_page q t = ground arith

-- Two instructions, and the string behind them.
abbrev pub printing_bytes : List ℕ
printing_bytes = 0x90 ∷ 0x91 ∷ test_text

abbrev pub printing_headers : List ProgramHeader
printing_headers =
    (record {
      p_type = 1;
      p_flags = 5;
      p_offset = 0;
      p_vaddr = 0x400000;
      p_filesz = 12;
      p_memsz = 12;
      p_align = 4096;
    })
    ∷ []

abbrev pub printing_segment : ℕ → ElfSegment machine bit_flags
printing_segment start = record {
  ty = load;
  align = 4096;
  flags = segment_flags machine bit_flags 5;
  file_start = 0;
  file_end = 12;
  addr = record { start = start; len = 12; original_start = 0x400000 };
}

abbrev pub printing : ElfFile machine bit_flags
printing = record { segments = printing_segment 0x660000 ∷ []; entry_point = 0x660000 }

pub printing_headers_read :
    read_segments machine bit_flags true printing_headers ≡ some (printing_segment 0x400000 ∷ [])
unfolding read_segments read_segment is_null low_address usize_add
printing_headers_read = refl

pub printing_moved :
    relocate machine bit_flags
      (record { segments = printing_segment 0x400000 ∷ []; entry_point = 0x400000 })
    ≡ some printing
unfolding relocate default_text_addr moved remap_destination remap_segments remap segment_flags
    flag_number low_address
printing_moved = refl

pub its_page :
    (q : ℕ) → touched machine bit_flags (printing_segment 0x660000 ∷ []) q ≡ true → q ≡ 0x660000
its_page q t = ground arith

pub printing-CanLoad :
    CanLoad machine bit_flags table_mapper printing_bytes
      (printing_segment 0x660000 ∷ [])
      empty_table
unfolding is_load segment_flags flag_number
printing-CanLoad = record {
  low = (omega arith, tt);
  all_present = (refl, tt);
  in_file = (λ l. (omega arith, omega arith, omega arith), tt);
  free = λ q t. refl;
  room = omega arith;
  sound = tt;
}

pub printing_user : (printing_segment 0x660000).flags user_accessible ≡ true
unfolding segment_flags flag_number
printing_user = refl
