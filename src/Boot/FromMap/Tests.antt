-- ===== src/Boot/FromMap/Tests.antt =====
-- The start of a program that prints, on a memory map of 512 frames.
use zulu_os.Base.{ℕ, ◌≡◌, refl, true, List, [], ◌∷◌, some, arith}
use zulu_os.Syscall.Samples.{machine}
use zulu_os.Memory.Samples.{TestRegion, low_memory, two_megabytes, two_megabytes_frames}
use zulu_os.Mapping.{PageMapper}
use zulu_os.Mapping.Assembled.{assembled}
use zulu_os.Mapping.Framed.{Framed, empty_framed, framed_pages}
use zulu_os.Alloc.{heap_start_address, heap_size}
use zulu_os.Elf.Samples.{bit_flags}
use zulu_os.Elf.Load.Samples.{
  small-IsLayout, small-MapFits, printing_bytes, printing_headers, printing_segment, printing,
  printing_headers_read, printing_moved, its_page, printing-CanLoad,
}
use zulu_os.Segments.Samples.{eight_places}
use zulu_os.Interrupts.Samples.{controllers}
use zulu_os.Entry.{rsp, reg}
use zulu_os.Vga.{Writer, ScreenChar}
use zulu_os.Vga.Document.{Shows, type_bytes}
use zulu_os.Vga.Samples.{plain, blank_writer, empty_document, blank_writer-Shows}
use zulu_os.Syscall.{halted, write_text}
use zulu_os.Syscall.Program.{test_text, user_start, user_panic}
use zulu_os.Boot.{BootInfo, Started, start}
use zulu_os.Boot.Ready.{lowest_stack_page}
use zulu_os.Boot.Handover.{IsStarted}
use zulu_os.Boot.Program.{running}
use zulu_os.Boot.Samples.{
  reset_cpu, hardware, no_heap, away, parse_printing, printing_image, printing-HasString,
}
use zulu_os.Boot.FromMap.{started, HasSpace, start_from_map}

abbrev its_mapper : PageMapper machine
its_mapper = assembled low_memory true machine framed_pages

abbrev new_table : ℕ → ℕ → Framed
new_table virt offset = empty_framed

abbrev two_megabytes_info : BootInfo (List TestRegion)
two_megabytes_info = record { physical_memory_offset = 0x18000000000; memory_map = two_megabytes }

printing-HasSpace :
    HasSpace machine bit_flags low_memory eight_places controllers plain true framed_pages
      printing_bytes
      (printing_segment 0x660000 ∷ [])
      empty_framed
      two_megabytes
unfolding heap_start_address heap_size
printing-HasSpace = record {
  low = printing-CanLoad.low;
  all_present = printing-CanLoad.all_present;
  in_file = printing-CanLoad.in_file;
  free = λ q t. refl;
  off_heap = λ q t. away 25 heap_start_address q refl (its_page q t);
  off_stack = λ q t. away 4 lowest_stack_page q refl (its_page q t);
  heap_free = λ i lt. refl;
  stack_free = λ i lt. refl;
  frames = omega (arith, two_megabytes_frames);
  countable = omega (arith, two_megabytes_frames);
  apart = (tt, tt);
  vec_valid = (small-IsLayout 320 (omega arith) (omega arith), tt);
  vec_fits = omega arith;
  map_fits = λ table e. small-MapFits its_mapper 102064 (omega arith);
  unused = λ i g at (p, o, h, e). absurd (ground arith);
}

start_from_map_example :
    (r : Started machine bit_flags its_mapper eight_places controllers) × (start machine bit_flags
        its_mapper eight_places controllers
        (List TestRegion)
        (started machine bit_flags low_memory eight_places controllers plain true framed_pages
          new_table)
        parse_printing
        (λ f. f)
        (λ f. f)
        (λ c. c)
        true
        printing_image
        two_megabytes_info
        0x202000
        hardware
        no_heap
      ≡ some r)
    × IsStarted machine bit_flags its_mapper eight_places controllers
        (λ f. f)
        printing_image.child_process
        printing
        (reg rsp reset_cpu)
        r
    × (w : Writer ScreenChar) × (user_start plain machine true 7
          (record { ptr = 0x660002; len = 10 })
          (running machine bit_flags its_mapper eight_places controllers plain true blank_writer r)
        ≡ halted
            (record (running machine bit_flags its_mapper eight_places controllers plain true
              blank_writer r) { console = w; interrupts = true }))
    × Shows plain w (
        type_bytes blank_writer.color_code test_text
          (type_bytes blank_writer.color_code write_text empty_document))
    × (user_panic plain machine true 7
          (running machine bit_flags its_mapper eight_places controllers plain true blank_writer r)
        ≡ halted
            (record (running machine bit_flags its_mapper eight_places controllers plain true
              blank_writer r) { interrupts = true }))
start_from_map_example =
    start_from_map machine bit_flags low_memory eight_places controllers plain true framed_pages
      new_table parse_printing (λ f. f) (λ f. f) (λ c. c) printing_image two_megabytes_info 0x202000
      hardware no_heap 0x400000 printing_headers (printing_segment 0x400000 ∷ []) printing 0x660002
      7 blank_writer empty_document refl (omega arith) (omega arith) refl printing_headers_read
      (omega arith) printing_moved printing-HasSpace (printing-HasString its_mapper)
      blank_writer-Shows
