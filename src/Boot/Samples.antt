-- ===== src/Boot/Samples.antt =====
-- A processor and what the bootloader passes on, and a program that prints: test data.
use zulu_os.Base.{
  ℕ, ◌≡◌, refl, true, List, [], false, ◌∷◌, Option, some, arith, sym, subst, ◌==◌, if◌then◌else◌,
}
use zulu_os.Paging.{page_run}
use zulu_os.Syscall.Samples.{machine}
use zulu_os.Mapping.{PageMapper}
use zulu_os.Mapping.Samples.{table_mapper, empty_table, Table}
use zulu_os.Alloc.{BumpAllocator, heap_start_address, heap_size}
use zulu_os.Elf.{ProgramHeader}
use zulu_os.Elf.Flags.{among}
use zulu_os.Elf.Samples.{bit_flags}
use zulu_os.Elf.Load.{is_load}
use zulu_os.Elf.Load.Samples.{
  small-IsLayout, small-MapFits, printing_bytes, printing_headers, printing_segment, printing,
  its_page, printing-CanLoad, printing_user, file_bytes, headers,
}
use zulu_os.Segments.Samples.{eight_places}
use zulu_os.Interrupts.Samples.{controllers}
use zulu_os.Entry.{Cpu}
use zulu_os.Boot.{BootInfo, Hardware, Image}
use zulu_os.Boot.Ready.{HasRoom, lowest_stack_page}
use zulu_os.Boot.Program.{HasString}

abbrev pub parse_file : List ℕ → Option (ℕ × List ProgramHeader)
parse_file bytes = some (0x400000, headers)

abbrev pub fresh_table : ℕ → ℕ → List ℕ → Table
fresh_table table offset memory_map = empty_table

abbrev pub reset_cpu : Cpu
reset_cpu = record {
  regs = λ r. if r == 7 then 0x9000 else r;
  memory = λ a. 0;
  gs = λ k. 0;
  kernel_gs = λ k. 7;
  rflags = 2;
  rip = 0x200000;
}

abbrev pub hardware : Hardware
hardware = record {
  has_fsgsbase = true;
  level4_frame = 0x1000;
  registers = record { sfmask = 0; efer = 0x500; cr4 = 0x20; lstar = 0 };
  cpu = reset_cpu;
}

abbrev pub image : Image
image = record { syscall_handler = 0x201000; child_process = file_bytes }

abbrev pub boot_info : BootInfo (List ℕ)
boot_info = record { physical_memory_offset = 0x18000000000; memory_map = [] }

abbrev pub no_heap : BumpAllocator
no_heap = record { heap_start = 0; heap_end = 0; next = 0 }

pub away :
    (n first q : ℕ)
    → among 0x660000 (page_run n first) ≡ false
    → q ≡ 0x660000
    → among q (page_run n first) ≡ false
away n first q out e = subst (λ p. among p (page_run n first) ≡ false) (sym e) out

abbrev pub parse_printing : List ℕ → Option (ℕ × List ProgramHeader)
parse_printing bytes = some (0x400000, printing_headers)

abbrev pub printing_image : Image
printing_image = record { syscall_handler = 0x201000; child_process = printing_bytes }

pub printing-HasRoom :
    HasRoom machine bit_flags table_mapper eight_places controllers printing_bytes
      (printing_segment 0x660000 ∷ [])
      empty_table
unfolding heap_start_address heap_size
printing-HasRoom = record {
  program = printing-CanLoad;
  off_heap = λ q t. away 25 heap_start_address q refl (its_page q t);
  off_stack = λ q t. away 4 lowest_stack_page q refl (its_page q t);
  heap_free = λ i lt. refl;
  stack_free = λ i lt. refl;
  frames = omega arith;
  vec_valid = (small-IsLayout 320 (omega arith) (omega arith), tt);
  vec_fits = omega arith;
  map_fits = λ table e. small-MapFits table_mapper 102064 (omega arith);
}

pub printing-HasString :
    (M : PageMapper machine) → HasString machine bit_flags M printing_bytes printing 0x660002
unfolding is_load
printing-HasString M = record {
  before = [];
  section = printing_segment 0x660000;
  after = [];
  split = refl;
  for_user = printing_user;
  covered = λ b lo hi. ground arith;
  last = λ b lo hi. tt;
  text = refl;
}
