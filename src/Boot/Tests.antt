-- ===== src/Boot/Tests.antt =====
-- The start of a small program, from the bootloader on.
use zulu_os.Base.{◌+◌, ◌==◌, if◌then◌else◌, inr, ℕ, ◌≡◌, refl, true, List, [], ◌∷◌, some, arith}
use zulu_os.Syscall.Samples.{machine}
use zulu_os.Mapping.Samples.{table_mapper, empty_table}
use zulu_os.Alloc.{heap_start_address, heap_size}
use zulu_os.Elf.Samples.{bit_flags}
use zulu_os.Elf.Load.Samples.{
  small-IsLayout, small-MapFits, file_bytes, headers, text, program, headers_read, text_moved,
  program-CanLoad, one_page,
}
use zulu_os.Segments.Samples.{eight_places}
use zulu_os.Interrupts.Samples.{controllers}
use zulu_os.Entry.{rsp, reg}
use zulu_os.Elf.Load.Samples.{
  printing_bytes, printing_headers, printing_segment, printing, printing_headers_read,
  printing_moved,
}
use zulu_os.Boot.{Started, kernel_main, start}
use zulu_os.Boot.Ready.{HasRoom, lowest_stack_page}
use zulu_os.Boot.Samples.{
  parse_file, fresh_table, reset_cpu, hardware, image, boot_info, no_heap, away, parse_printing,
  printing_image, printing-HasRoom, printing-HasString,
}
use zulu_os.Boot.Program.{running, start_lem}
use zulu_os.Boot.FirstCall.{first_write_lem}
use zulu_os.Entry.{rax, user_write, Cpu, reg_number}
use zulu_os.Entry.Library.{handled}
use zulu_os.Entry.Samples.{answers, answers-IsSysv64}
use zulu_os.Vga.Samples.{plain, blank_writer, empty_document, blank_writer-Shows}
use zulu_os.Boot.Handover.{IsStarted, kernel_main_lem}

fresh-HasRoom :
    HasRoom machine bit_flags table_mapper eight_places controllers file_bytes
      (text 0x660000 ∷ [])
      empty_table
unfolding heap_start_address heap_size
fresh-HasRoom = record {
  program = program-CanLoad;
  off_heap = λ q t. away 25 heap_start_address q refl (one_page q t);
  off_stack = λ q t. away 4 lowest_stack_page q refl (one_page q t);
  heap_free = λ i lt. refl;
  stack_free = λ i lt. refl;
  frames = omega arith;
  vec_valid = (small-IsLayout 320 (omega arith) (omega arith), tt);
  vec_fits = omega arith;
  map_fits = λ table e. small-MapFits table_mapper 102064 (omega arith);
}

kernel_main_lem_example :
    (r : Started machine bit_flags table_mapper eight_places controllers) × (kernel_main machine
        bit_flags table_mapper eight_places controllers
        (List ℕ)
        fresh_table
        parse_file
        (λ f. f)
        (λ f. f)
        (λ c. c)
        true
        image
        boot_info
        0x9000
        hardware
        no_heap
      ≡ some r)
    × IsStarted machine bit_flags table_mapper eight_places controllers
        (λ f. f)
        file_bytes
        program
        0x9000
        r
kernel_main_lem_example =
    kernel_main_lem machine bit_flags table_mapper eight_places controllers (List ℕ) fresh_table
      parse_file (λ f. f) (λ f. f) (λ c. c) true image boot_info 0x9000 hardware no_heap 0x400000
      headers (text 0x400000 ∷ []) program refl (omega arith) (omega arith) refl headers_read
      (omega arith) text_moved fresh-HasRoom

-- The kernel when the printing program starts.
abbrev booted :
    (r : Started machine bit_flags table_mapper eight_places controllers) × (start machine bit_flags
        table_mapper eight_places controllers
        (List ℕ)
        fresh_table
        parse_printing
        (λ f. f)
        (λ f. f)
        (λ c. c)
        true
        printing_image
        boot_info
        0x202000
        hardware
        no_heap
      ≡ some r)
    × IsStarted machine bit_flags table_mapper eight_places controllers
        (λ f. f)
        printing_bytes
        printing
        (reg rsp reset_cpu)
        r
booted =
    start_lem machine bit_flags table_mapper eight_places controllers plain true (List ℕ)
      fresh_table parse_printing (λ f. f) (λ f. f) (λ c. c) printing_image boot_info 0x202000
      hardware no_heap 0x400000 printing_headers (printing_segment 0x400000 ∷ []) printing refl
      (omega arith) (omega arith) refl printing_headers_read (omega arith) printing_moved
      printing-HasRoom

-- The program in front of its call, with a word on its stack.
abbrev calling : Cpu
calling = record {
  regs = λ r. if r == 7 then 0xDEADEFF0 else r + 100;
  memory = λ a. a + 5;
  gs = λ k. 0;
  kernel_gs = booted.0.cpu.kernel_gs;
  rflags = 0x202;
  rip = 0x660000;
}

abbrev first_handler : Cpu → Cpu
first_handler = answers (
    handled plain machine true (
      running machine bit_flags table_mapper eight_places controllers plain true blank_writer
        booted.0))

abbrev first_written : Cpu
first_written =
    user_write (λ f. f) (λ f. f) first_handler booted.0.tables.registers.lstar 0x660010 0
      (record { ptr = 0x660002; len = 10 }) calling

first_write_lem_example :
    (reg rax first_written ≡ 10)
    × (reg rsp first_written ≡ reg rsp calling + 8)
    × (first_written.rip ≡ calling.memory (reg rsp calling))
unfolding reg_number
first_write_lem_example =
    first_write_lem machine bit_flags table_mapper eight_places controllers plain true (List ℕ)
      fresh_table parse_printing (λ f. f) (λ f. f) (λ c. c) printing_image boot_info 0x202000
      hardware no_heap 0x400000 printing_headers (printing_segment 0x400000 ∷ []) printing 0x660002
      0x660010 0x8000 0 blank_writer empty_document booted.0 first_handler calling refl
      (omega arith) (omega arith) refl printing_headers_read (omega arith) printing_moved
      printing-HasRoom (printing-HasString table_mapper) blank_writer-Shows booted.1 (λ k. refl)
      (answers-IsSysv64
        (handled plain machine true (
          running machine bit_flags table_mapper eight_places controllers plain true blank_writer
            booted.0))
        0x8000)
      (omega arith) (omega arith) (inr (omega arith))
