-- ===== src/Boot/FromMap.antt =====
-- The boot (kernel/src/main.rs) on the frames of the bootloader's memory map (kernel/src/memory.rs).
mod Tests
use zulu_os.Base.{
  ℕ, ◌+◌, ◌*◌, ◌^◌, ◌-◌, ◌<◌, ◌≤◌, ◌≡◌, Bool, true, false, List, Option, some, arith, length,
  get_elem?, usize_mod,
}
use zulu_os.Paging.{Paging, page_run}
use zulu_os.Memory.{Physical, BootInfoFrameAllocator, init, usable_addresses}
use zulu_os.Memory.Distinct.{RegionsApart}
use zulu_os.Mapping.{PageMapper}
use zulu_os.Mapping.Assembled.{OffsetPageTable, assembled}
use zulu_os.Alloc.{BumpAllocator, heap_start_address, heap_size}
use zulu_os.Vga.{Volatile, Writer}
use zulu_os.Vga.Document.{Document, Shows, type_bytes}
use zulu_os.Syscall.{halted, write_text}
use zulu_os.Syscall.Program.{test_text, user_start, user_panic}
use zulu_os.Elf.{Object, ProgramHeader, ElfSegment, ElfFile, read_segments, relocate}
use zulu_os.Elf.Flags.{among}
use zulu_os.Elf.Pages.{Low}
use zulu_os.Elf.Load.Table.{AllPresent, touched, page_total}
use zulu_os.Elf.Load.Placed.{InFile, PagesFit}
use zulu_os.Alloc.Requests.{AllValid, asked}
use zulu_os.Segments.{Descriptors}
use zulu_os.Interrupts.{ChainedPics}
use zulu_os.Entry.{rsp, Cpu, reg}
use zulu_os.Boot.{BootInfo, Hardware, Image, Started, start}
use zulu_os.Boot.Ready.{HasRoom, lowest_stack_page}
use zulu_os.Boot.Handover.{IsStarted}
use zulu_os.Boot.Program.{HasString, running, start_prints}

module _ (P : Paging) (O : Object P) (F : Physical) (D : Descriptors) (C : ChainedPics)
    (V : Volatile) (checks : Bool) where
  abbrev pub M : OffsetPageTable P → PageMapper P
  M X = assembled F checks P X

  -- `memory::init` and `BootInfoFrameAllocator::init`, for what `new` makes of a table
  abbrev pub started : (X : OffsetPageTable P) → (ℕ → ℕ → X.T) → ℕ → ℕ → List F.Region → (M X).S
  started X new virt offset memory_map = (new virt offset, init F memory_map)

  -- The segments end below 2 ^ 47, are readable as the loader makes them, and lie in the file; their pages,
  -- those of the heap and those of the stack are apart and free in the table of the bootloader; the memory
  -- map has 116 usable frames and four for each page of a segment, and fewer than 2 ^ 64 - 1 in all. Its
  -- usable regions do not overlap, and the bootloader's table and its pages use none of their frames. The
  -- vector of the segments and the map of the pages fit into the heap, with 16 bytes for the thread.
  pub record HasSpace (X : OffsetPageTable P) (bytes : List ℕ) (ss : List (ElfSegment P O))
      (t : X.T) (memory_map : List F.Region) : Type 0 where
    pub low : Low P O ss
    pub all_present : AllPresent P O ss
    pub in_file : InFile P O (M X) bytes ss
    pub free : (q : ℕ) → touched P O ss q ≡ true → X.Free t q
    pub off_heap :
        (q : ℕ) → touched P O ss q ≡ true → among q (page_run 25 heap_start_address) ≡ false
    pub off_stack :
        (q : ℕ) → touched P O ss q ≡ true → among q (page_run 4 lowest_stack_page) ≡ false
    pub heap_free : (i : ℕ) → i < 25 → X.Free t (heap_start_address + i * 4096)
    pub stack_free : (i : ℕ) → i < 4 → X.Free t (lowest_stack_page + i * 4096)
    pub frames : 116 + 4 * page_total P O ss ≤ length (usable_addresses F memory_map)
    pub countable : length (usable_addresses F memory_map) < usize_mod
    pub apart : RegionsApart F memory_map
    pub vec_valid : AllValid 0 (O.vec_requests (length ss))
    pub vec_fits : 16 + asked (O.vec_requests (length ss)) ≤ heap_size
    pub map_fits : PagesFit P O (M X) (heap_size - 16 - asked (O.vec_requests (length ss))) ss
    pub unused : (i g : ℕ) → get_elem? (usable_addresses F memory_map) i ≡ some g → ¬ X.Uses t g

  from_map-HasRoom :
      (X : OffsetPageTable P) (bytes : List ℕ) (ss : List (ElfSegment P O)) (t : X.T)
      (memory_map : List F.Region)
      → HasSpace X bytes ss t memory_map
      → HasRoom P O (M X) D C bytes ss (t, init F memory_map)
  unfolding init
  from_map-HasRoom X bytes ss t memory_map h = record {
    program = record {
      low = h.low;
      all_present = h.all_present;
      in_file = h.in_file;
      free = h.free;
      room = omega (arith, h.frames, h.countable);
      sound = (h.apart, λ g (i, later, at). h.unused i g at);
    };
    off_heap = h.off_heap;
    off_stack = h.off_stack;
    heap_free = h.heap_free;
    stack_free = h.stack_free;
    frames = omega (arith, h.frames, h.countable);
    vec_valid = h.vec_valid;
    vec_fits = h.vec_fits;
    map_fits = h.map_fits;
  }

  module _ (X : OffsetPageTable P) (new : ℕ → ℕ → X.T)
      (parse : List ℕ → Option (ℕ × List ProgramHeader)) (mask unmask : ℕ → ℕ)
      (inner : Cpu → Cpu) where
    -- From the bootloader to the printed text. On a processor with `fsgsbase`, with the handler of system
    -- calls, the level 4 table and the entry point of the program in the lower half of the address space,
    -- with a program that parses and can be moved, with space for it on the heap, in the table and in
    -- the memory map of the bootloader (`HasSpace`; its usable regions are apart and not in use), with the ten bytes of "Test print" in a segment of the program that user mode
    -- may read and below no other segment, and on a screen that shows a document: `_start` of the
    -- kernel does not panic on frames of the memory map, and starts the program as `IsStarted`
    -- says, with a frame of its own for each page of the segments and of the stack. The calls of `_start` of userspace_test, answered
    -- by this kernel with the pages and the memory that it has then, end on a core that halts
    -- with interrupts on; the screen shows the line "write" and the text after the document. A
    -- panic of the program ends in the same way, without the text.
    pub start_from_map :
        (image : Image) (boot_info : BootInfo (List F.Region)) (main : ℕ) (h : Hardware)
        (a : BumpAllocator) (entry : ℕ) (headers : List ProgramHeader)
        (segments : List (ElfSegment P O)) (elf_file : ElfFile P O) (ptr unused : ℕ)
        (console : Writer V.Cell) (d : Document)
        → h.has_fsgsbase ≡ true
        → image.syscall_handler < 2 ^ 47
        → boot_info.physical_memory_offset + h.level4_frame < 2 ^ 47
        → parse image.child_process ≡ some (entry, headers)
        → read_segments P O checks headers ≡ some segments
        → entry < 2 ^ 47
        → relocate P O (record { segments = segments; entry_point = entry }) ≡ some elf_file
        → HasSpace X image.child_process elf_file.segments
            (new
              (boot_info.physical_memory_offset + h.level4_frame)
              boot_info.physical_memory_offset)
            boot_info.memory_map
        → HasString P O (M X) image.child_process elf_file ptr
        → Shows V console d
        → (r : Started P O (M X) D C) × (start P O
              (M X)
              D
              C
              (List F.Region)
              (started X new)
              parse
              mask
              unmask
              inner
              checks
              image
              boot_info
              main
              h
              a
            ≡ some r)
          × IsStarted P O (M X) D C unmask image.child_process elf_file (reg rsp h.cpu) r
          × (w : Writer V.Cell) × (user_start V P checks unused
                (record { ptr = ptr; len = 10 })
                (running P O (M X) D C V checks console r)
              ≡ halted (record (running P O (M X) D C V checks console r) {
                console = w;
                interrupts = true;
              }))
          × Shows V w
              (type_bytes console.color_code test_text (type_bytes console.color_code write_text d))
          × (user_panic V P checks unused (running P O (M X) D C V checks console r)
              ≡ halted (record (running P O (M X) D C V checks console r) { interrupts = true }))
    start_from_map image boot_info main h a entry headers segments elf_file ptr unused console d has
          handler_low offset_low parsed read entry_low moved space string shows =
        start_prints P O (M X) D C V checks (List F.Region) (started X new) parse mask unmask inner
          image boot_info main h a entry headers segments elf_file ptr unused console d has
          handler_low offset_low parsed read entry_low moved
          (from_map-HasRoom X image.child_process elf_file.segments
            (new (boot_info.physical_memory_offset + h.level4_frame)
              boot_info.physical_memory_offset)
            boot_info.memory_map space)
          string shows
