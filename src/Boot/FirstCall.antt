-- ===== src/Boot/FirstCall.antt =====
-- The first system call of the user program, on the registers that the boot of the kernel has set
-- (kernel/src/main.rs, kernel/src/syscall/mod.rs, kernel/src/syscall/handler.rs, syscall/src/lib.rs).
use zulu_os.Base.{
  ℕ, ◌+◌, ◌^◌, ◌<◌, ◌≤◌, ◌≡◌, ◌⊎◌, sym, ◌∙◌, ap, subst, Bool, true, List, Option, none, some, arith,
}
use zulu_os.Paging.{Paging}
use zulu_os.Mapping.{PageMapper}
use zulu_os.Alloc.{BumpAllocator}
use zulu_os.Vga.{Volatile, Writer}
use zulu_os.Vga.Document.{Document, Shows}
use zulu_os.Elf.{Object, ProgramHeader, ElfSegment, ElfFile, read_segments, relocate}
use zulu_os.Segments.{Descriptors}
use zulu_os.Interrupts.{ChainedPics}
use zulu_os.Entry.{rax, rsp, Cpu, reg, user_write}
use zulu_os.Entry.Returns.{IsSysv64, top}
use zulu_os.Entry.Library.{handled, user_write_lem}
use zulu_os.Boot.{BootInfo, Hardware, Image, Started, start}
use zulu_os.Boot.Ready.{HasRoom}
use zulu_os.Boot.Handover.{IsStarted}
use zulu_os.Boot.Program.{HasString, running, start_lem, readable, string_low}

module _ (P : Paging) (O : Object P) (M : PageMapper P) (D : Descriptors) (C : ChainedPics)
    (V : Volatile) (checks : Bool) where
  open M use {S}

  module _ (MemoryMap : Type 0) (started : ℕ → ℕ → MemoryMap → S)
      (parse : List ℕ → Option (ℕ × List ProgramHeader)) (mask unmask : ℕ → ℕ)
      (inner : Cpu → Cpu) where
    -- The program's first system call comes back, on the registers that the boot has set. `_start` of the
    -- kernel has run on a processor with `fsgsbase`, with the handler of system calls, the level 4 table
    -- and the entry point of the program in the lower half of the address space, with a program that
    -- parses, can be moved, that there is room for, and whose string user mode may read. The program
    -- then computes, so that all but the swapped-out GS base may have changed, and calls `write` of
    -- the library on its string. The call goes to the address that `syscall::init` put into
    -- LSTAR and runs on the stack below the pointer that the bootloader gave, of which `handler`,
    -- the call of `syscall_handler_inner`, uses by the System V convention the part from
    -- `bottom` on. On a screen that shows a document, and if its frame does not lie in that
    -- stack, the caller gets the length 10 back, has its stack as after any call, and goes
    -- on at its return address.
    pub first_write_lem :
        (image : Image) (boot_info : BootInfo MemoryMap) (main : ℕ) (h : Hardware)
        (a : BumpAllocator) (entry : ℕ) (headers : List ProgramHeader)
        (segments : List (ElfSegment P O)) (elf_file : ElfFile P O) (ptr after bottom fd : ℕ)
        (console : Writer V.Cell) (d : Document) (r : Started P O M D C) (handler : Cpu → Cpu)
        (c : Cpu)
        → h.has_fsgsbase ≡ true
        → image.syscall_handler < 2 ^ 47
        → boot_info.physical_memory_offset + h.level4_frame < 2 ^ 47
        → parse image.child_process ≡ some (entry, headers)
        → read_segments P O checks headers ≡ some segments
        → entry < 2 ^ 47
        → relocate P O (record { segments = segments; entry_point = entry }) ≡ some elf_file
        → HasRoom P O M D C image.child_process elf_file.segments (
            started
              (boot_info.physical_memory_offset + h.level4_frame)
              boot_info.physical_memory_offset
              boot_info.memory_map)
        → HasString P O M image.child_process elf_file ptr
        → Shows V console d
        → start P O M D C MemoryMap started parse mask unmask inner checks image boot_info main h a
          ≡ some r
        → ((k : ℕ) → c.kernel_gs k ≡ r.cpu.kernel_gs k)
        → ((e : Cpu)
            → IsSysv64 handler bottom (handled V P checks (running P O M D C V checks console r)) e)
        → bottom + 16 ≤ reg rsp h.cpu
        → 8 ≤ reg rsp c
        → (reg rsp c + 8 ≤ bottom) ⊎ (reg rsp h.cpu + 8 ≤ reg rsp c)
        → (reg rax (
              user_write mask unmask handler r.tables.registers.lstar after fd
                (record { ptr = ptr; len = 10 })
                c)
            ≡ 10)
          × (reg rsp (
                user_write mask unmask handler r.tables.registers.lstar after fd
                  (record { ptr = ptr; len = 10 })
                  c)
              ≡ reg rsp c + 8)
          × ((user_write mask unmask handler r.tables.registers.lstar after fd
                (record { ptr = ptr; len = 10 })
                c).rip
              ≡ c.memory (reg rsp c))
    first_write_lem image boot_info main h a entry headers segments elf_file ptr after bottom fd
          console d r handler c has handler_low offset_low parsed read entry_low moved room string
          shows e kept sysv deep own apart =
        let (r0, e0, s0) =
          start_lem P O M D C V checks MemoryMap started parse mask unmask inner image boot_info
            main h a entry headers segments elf_file has handler_low offset_low parsed read
            entry_low moved room in
        let same : r0 ≡ r = ap (λ o. elim o [ none ↦ r0 | some x ↦ x ]) (sym e0 ∙ e) in
        let s =
          subst (λ r. IsStarted P O M D C unmask image.child_process elf_file (reg rsp h.cpu) r)
            same s0 in
        let its_top : top c ≡ reg rsp h.cpu = kept 0 ∙ s.kernel_stack in
        user_write_lem V P checks mask unmask handler r.tables.registers.lstar after
          (running P O M D C V checks console r) d fd (record { ptr = ptr; len = 10 }) c bottom sysv
          (omega (arith, deep, its_top)) own
          (subst (λ t. (reg rsp c + 8 ≤ bottom) ⊎ (t + 8 ≤ reg rsp c)) (sym its_top) apart)
          (
            omega arith,
            omega arith,
            string_low P O M D C V checks image.child_process elf_file ptr string room.program,
          )
          (readable P O M D C V checks image.child_process elf_file ptr (reg rsp h.cpu) unmask
            console r string room.program.in_file room.program.all_present s)
          shows
