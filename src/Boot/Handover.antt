-- ===== src/Boot/Handover.antt =====
-- From the bootloader to the user program (`kernel_main` of kernel/src/main.rs).
use zulu_os.Base.{
  ℕ, ◌+◌, ◌*◌, ◌/◌, ◌^◌, ◌<◌, ◌≤◌, ◌≡◌, ◌≢◌, refl, ◌∙◌, ap, Bool, true, List, ◌∷◌, ◌++◌, Option,
  none, some, arith, usize_add_small,
}
use zulu_os.Paging.{Paging, Flag, no_execute}
use zulu_os.Mapping.{PageMapper}
use zulu_os.Mapping.Guard.{memory_init, mapper, with_mapper}
use zulu_os.Alloc.{BumpAllocator, heap_start_address, heap_size}
use zulu_os.Elf.{Object, ProgramHeader, ElfSegment, ElfFile, read_segments, relocate}
use zulu_os.Elf.Load.Granted.{segment_granted}
use zulu_os.Elf.Load.Copied.{covers, file_byte}
use zulu_os.Boot.Loads.{loads}
use zulu_os.Elf.Load.Table.{touched}
use zulu_os.Elf.Load.Placed.{Uncovered}
use zulu_os.Segments.{Descriptors}
use zulu_os.Interrupts.{ChainedPics}
use zulu_os.Entry.{rsp, Cpu, reg, kernel_rsp_offset}
use zulu_os.Entry.Setup.{user_mode_flags, non_zero, ThreadData, words_of}
use zulu_os.Entry.Setup.Thread.{init_thread_data_lem, enter_user_mode_lem, words_of_lem}
use zulu_os.Boot.{
  lowest_stack_addr, stack_size, BootInfo, Hardware, Image, expect_none, Started, stack_flags,
  set_up_heap, load_bin, kernel_main,
}
use zulu_os.Boot.Ready.{lowest_stack_page, HasRoom, stack_apart, prepared, init_lem, stack_kept}

module _ (P : Paging) (O : Object P) (M : PageMapper P) (D : Descriptors) (C : ChainedPics) where
  open M use {S, flags_of, byte_at, frames_left, Free}

  -- How the user program is started.
  pub record IsStarted (unmask : ℕ → ℕ) (bytes : List ℕ) (elf_file : ElfFile P O) (kernel_rsp : ℕ)
      (r : Started P O M D C) : Type 0 where
    pub at_entry : r.cpu.rip ≡ elf_file.entry_point
    pub on_stack : reg rsp r.cpu ≡ lowest_stack_page + 4096 * 4
    pub user_flags : r.cpu.rflags ≡ unmask user_mode_flags
    pub kernel_stack : r.cpu.kernel_gs kernel_rsp_offset ≡ kernel_rsp
    pub boxed :
        (heap_start_address ≤ r.gs_base)
        × (r.gs_base + 16 ≤ r.allocator.next)
        × (r.allocator.next ≤ heap_start_address + heap_size)
    pub stack_mapped :
        (b : ℕ)
        → lowest_stack_page ≤ b
        → b < lowest_stack_page + 4096 * 4
        → flags_of r.state (b / 4096 * 4096) ≡ some (stack_flags P O M D C)
    pub stack_own : (i : ℕ) → i < 4 → M.Alone r.state (lowest_stack_page + i * 4096)
    pub own_frames : (q : ℕ) → touched P O elf_file.segments q ≡ true → M.Alone r.state q
    pub granted :
        (before after : List (ElfSegment P O)) (section : ElfSegment P O) (b : ℕ)
        → elf_file.segments ≡ before ++ section ∷ after
        → section.addr.start ≤ b
        → b < section.addr.start + section.addr.len
        → (g : P.Flags) × (flags_of r.state (b / 4096 * 4096) ≡ some g)
          × ((f : Flag)
              → f ≢ no_execute
              → P.contains section.flags f ≡ true
              → P.contains g f ≡ true)
    pub placed :
        (before after : List (ElfSegment P O)) (section : ElfSegment P O) (b : ℕ)
        → elf_file.segments ≡ before ++ section ∷ after
        → covers P O M section b ≡ true
        → Uncovered P O M after b
        → byte_at r.state b ≡ file_byte P O M bytes section b

  module _ (MemoryMap : Type 0) (started : ℕ → ℕ → MemoryMap → S)
      (parse : List ℕ → Option (ℕ × List ProgramHeader)) (mask unmask : ℕ → ℕ)
      (inner : Cpu → Cpu) where
    -- On a processor with `fsgsbase`, with the handler of system calls, the level 4 table and
    -- the entry point of the program in the lower half of the address space, and with a program
    -- that parses, can be moved, and that there is room for in memory and on the heap (`HasRoom`), `kernel_main` does not panic. The
    -- user program starts at its entry point, moved as the program is, on the top of a stack
    -- whose four pages are mapped for the user and writable, with the flags of user mode. No two of the
    -- pages of the segments and of the stack share a frame, and no table stands on one. The page of
    -- every byte of a segment allows what the segment asks for, `NO_EXECUTE` left aside. GS,
    -- swapped out, has the kernel's stack pointer for the first system call, in a box that lies
    -- in the heap. Every byte that a loaded segment has in the file, and that no later segment
    -- covers, is in memory.
    pub kernel_main_lem :
        (checks : Bool) (image : Image) (boot_info : BootInfo MemoryMap) (kernel_rsp : ℕ)
        (h : Hardware) (a : BumpAllocator) (entry : ℕ) (headers : List ProgramHeader)
        (segments : List (ElfSegment P O)) (elf_file : ElfFile P O)
        → h.has_fsgsbase ≡ true
        → image.syscall_handler < 2 ^ 47
        → boot_info.physical_memory_offset + h.level4_frame < 2 ^ 47
        → parse image.child_process ≡ some (entry, headers)
        → read_segments P O checks headers ≡ some segments
        → entry < 2 ^ 47
        → relocate P O (record { segments = segments; entry_point = entry }) ≡ some elf_file
        → HasRoom P O M D C image.child_process elf_file.segments (
            started
              (boot_info.physical_memory_offset + h.level4_frame)
              boot_info.physical_memory_offset
              boot_info.memory_map)
        → (r : Started P O M D C) × (kernel_main P O M D C MemoryMap started parse mask unmask inner
              checks image boot_info kernel_rsp h a
            ≡ some r)
          × IsStarted unmask image.child_process elf_file kernel_rsp r
    unfolding kernel_main set_up_heap load_bin memory_init mapper with_mapper heap_start_address
        heap_size expect_none
    kernel_main_lem checks image boot_info kernel_rsp h a entry headers segments elf_file has
          handler_low offset_low parsed read entry_low moved room =
        let bytes : List ℕ = image.child_process in
        let offset : ℕ = boot_info.physical_memory_offset in
        let (t, et) = init_lem P O M D C image.syscall_handler h handler_low has in
        let s0 : S = started (offset + h.level4_frame) offset boot_info.memory_map in
        let (s1, s2, e1, e2, mapped, stack_alone, can) =
          prepared P O M D C checks bytes elf_file.segments s0 a room in
        let a1 : BumpAllocator = record {
          heap_start = heap_start_address;
          heap_end = heap_start_address + heap_size;
          next = heap_start_address;
        } in
        let thread : ThreadData = record {
          kernel_rsp = non_zero kernel_rsp;
          user_tmp_rsp = none;
        } in
        let boxed_eq =
          init_thread_data_lem P checks thread a1 h.cpu (omega arith) (omega arith) (omega arith) in
        let page : P.page_containing lowest_stack_addr ≡ lowest_stack_page =
          P.page_containing_lem lowest_stack_addr in
        let past : P.page_containing (lowest_stack_page + stack_size)
            ≡ lowest_stack_page + 4 * 4096 =
          P.page_containing_lem (lowest_stack_page + stack_size) in
        let (table, s3, n4, ec, el, from4, to4, own, others, alone, kept, placed) =
          loads P O M D C parse checks bytes entry headers segments elf_file s0 s2 parsed read
            entry_low moved room can in
        let (c', eu, u1, u2, u3, u4, u5, u6) =
          enter_user_mode_lem mask unmask inner elf_file.entry_point
            (lowest_stack_page + stack_size) t.registers.lstar
            (record h.cpu { gs = words_of thread }) in
        (
          record {
            tables = t;
            state = s3;
            allocator = record a1 { next = n4 };
            gs_base = heap_start_address;
            bin = elf_file;
            cpu = c';
          },
          rw
              (
                et,
                P.try_new_low offset (omega (arith, offset_low)),
                P.add_low offset h.level4_frame offset_low,
                e1,
                boxed_eq,
                P.try_new_low lowest_stack_addr (omega arith),
                page,
                P.add_low lowest_stack_page stack_size (omega arith),
                past,
                P.range_lem lowest_stack_page 4,
                e2,
                el,
                usize_add_small checks lowest_stack_page stack_size (omega arith),
                eu,
              )
              refl,
          record {
            at_entry = u1;
            on_stack = u2;
            user_flags = u4;
            kernel_stack = ap (λ g. g kernel_rsp_offset) u5 ∙ words_of_lem thread kernel_rsp refl;
            boxed = (omega arith, omega (arith, from4), omega (arith, to4));
            stack_own = λ i lt.
                kept (lowest_stack_page + i * 4096)
                  (stack_apart P O M D C bytes elf_file.segments s0 i room lt) (stack_alone i lt);
            own_frames = alone;
            stack_mapped = stack_kept P O M D C bytes elf_file.segments s0 s2 s3 room mapped others;
            granted =
                segment_granted P O M elf_file.segments table s3 can.low can.all_present ec own;
            placed = placed;
          },
        )
