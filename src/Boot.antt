-- ===== src/Boot.antt =====
-- kernel/src/main.rs: `kernel_main`, from the bootloader to the first instruction of the user program,
-- with `init` of kernel/src/lib.rs and of kernel/src/memory.rs. A panic is `none`.
pub mod Stack
pub mod Ready
pub mod Loads
pub mod Handover
pub mod Program
pub mod FirstCall
pub mod FromMap
mod Samples
mod Tests
use zulu_os.Base.{ℕ, ◌+◌, ◌*◌, Bool, List, [], ◌∷◌, Option, none, some, ◌>>=◌, usize_add}
use zulu_os.Paging.{Paging, present, writable, user_accessible}
use zulu_os.Mapping.{PageMapper, map_page}
use zulu_os.Mapping.Guard.{memory_init, mapper, with_mapper}
use zulu_os.Alloc.{BumpAllocator}
use zulu_os.Elf.{Object, ProgramHeader, ElfFile}
use zulu_os.Elf.Load.{load_program}
use zulu_os.Heap.{init_kernel_heap}
use zulu_os.Segments.{Descriptors, Segments, gdt_init}
use zulu_os.Interrupts.{ChainedPics, InterruptDescriptorTable, idt, pic_1_offset, pic_2_offset}
use zulu_os.Entry.{Cpu, rsi, reg}
use zulu_os.Entry.Setup.{
  Registers, syscall_init, ThreadData, non_zero, init_thread_data, enter_user_mode, enter_kernel,
}

abbrev pub lowest_stack_addr : ℕ
lowest_stack_addr = 0xDEADBEEF

abbrev pub stack_size : ℕ
stack_size = 4096 * 4

-- `expect` of a result without a value
unfoldable pub expect_none : {E : Type 0} → Option E → Option (Unit {0})
expect_none none = some tt
expect_none (some e) = none

-- What the bootloader passes on.
pub record BootInfo (MemoryMap : Type 0) : Type 0 where
  pub physical_memory_offset : ℕ
  pub memory_map : MemoryMap

-- What the processor has at the start: `cpuid` on `fsgsbase`, the frame that CR3 names, the registers.
pub record Hardware : Type 0 where
  pub has_fsgsbase : Bool
  pub level4_frame : ℕ
  pub registers : Registers
  pub cpu : Cpu

-- What the build has put in: the address of `syscall_handler`, and the file of the user program.
pub record Image : Type 0 where
  pub syscall_handler : ℕ
  pub child_process : List ℕ

module _ (P : Paging) (O : Object P) (M : PageMapper P) (D : Descriptors) (C : ChainedPics) where
  open M use {S}

  -- What `init` of lib.rs leaves.
  pub record Tables : Type 0 where
    pub segments : Segments D
    pub interrupts : InterruptDescriptorTable
    pub pics : C.Pics
    pub registers : Registers

  -- `init` of lib.rs
  pub init : Bool → ℕ → Registers → Option Tables
  init has_fsgsbase syscall_handler registers = do
    segments ← gdt_init D has_fsgsbase
    registers' ← syscall_init P syscall_handler registers
    some (record {
      segments = segments;
      interrupts = idt;
      pics = C.initialize (C.new pic_1_offset pic_2_offset);
      registers = registers';
    })

  abbrev pub stack_flags : P.Flags
  stack_flags = O.union (O.union (O.only present) (O.only user_accessible)) (O.only writable)

  -- The loop over the pages of the user stack.
  pub map_stack : List ℕ → S → Option S
  map_stack [] s = some s
  map_stack (page ∷ user_stack) s = do s' ← map_page P M page stack_flags s; map_stack user_stack s'

  -- What there is when the user program starts.
  pub record Started : Type 0 where
    pub tables : Tables
    pub state : S
    pub allocator : BumpAllocator
    pub gs_base : ℕ
    pub bin : ElfFile P O
    pub cpu : Cpu

  -- `started` is `OffsetPageTable::new` on the table at an address, with the offset of physical memory,
  -- and `BootInfoFrameAllocator::init`, in one state; `parse` is the crate's; `mask`, `unmask` and `inner`
  -- are those of the machine.
  module _ (MemoryMap : Type 0) (started : ℕ → ℕ → MemoryMap → S)
      (parse : List ℕ → Option (ℕ × List ProgramHeader)) (mask unmask : ℕ → ℕ)
      (inner : Cpu → Cpu) where
    -- The closure that sets up the heap.
    pub set_up_heap : Bool → BumpAllocator → S → Option (BumpAllocator × S)
    set_up_heap checks allocator s = do
      (failed, s', allocator') ← init_kernel_heap P O M checks s allocator
      _ ← expect_none failed
      some (allocator', s')

    -- The closure that maps the stack and loads the program.
    pub load_bin :
        Bool → List ℕ → List ℕ → BumpAllocator → S → Option ((ElfFile P O × BumpAllocator) × S)
    unfolding map_stack
    load_bin checks user_stack child_process allocator s = do
      s' ← map_stack user_stack s
      load_program P O M parse checks child_process allocator s'

    -- `kernel_main`, on the stack at `rsp`; the state is what the static mapper has in the end.
    pub kernel_main :
        Bool → Image → BootInfo MemoryMap → ℕ → Hardware → BumpAllocator → Option Started
    unfolding init set_up_heap load_bin
    kernel_main checks image boot_info rsp h allocator = do
      tables ← init h.has_fsgsbase image.syscall_handler h.registers
      phys_mem_offset ← P.try_new boot_info.physical_memory_offset
      (guard, static) ←
          memory_init P (λ virt offset. started virt offset boot_info.memory_map) phys_mem_offset
            h.level4_frame none
      (a1, static1) ← with_mapper guard (set_up_heap checks allocator)
      (gs_base, a2, cpu) ←
          init_thread_data P checks (record { kernel_rsp = non_zero rsp; user_tmp_rsp = none }) a1
            h.cpu
      stack_addr ← P.try_new lowest_stack_addr
      let lowest_stack_page = P.page_containing stack_addr
      past_stack ← P.add lowest_stack_page stack_size
      let highest_stack_page = P.page_containing past_stack
      guard1 ← mapper static1
      ((bin, a3), static2) ←
          with_mapper guard1
            (load_bin checks (P.range lowest_stack_page highest_stack_page) image.child_process a2)
      guard2 ← mapper static2
      top_of_stack ← usize_add checks lowest_stack_page stack_size
      some (record {
        tables = tables;
        state = guard2.inner;
        allocator = a3;
        gs_base = gs_base;
        bin = bin;
        cpu =
            enter_user_mode mask unmask inner bin.entry_point top_of_stack tables.registers.lstar
              cpu;
      })

    -- `_start`, and `kernel_main` with the arguments that it passes; `entry` is the address of the latter.
    pub start : Bool → Image → BootInfo MemoryMap → ℕ → Hardware → BumpAllocator → Option Started
    unfolding kernel_main
    start checks image boot_info entry h allocator =
        let c = enter_kernel inner entry h.cpu in
        kernel_main checks image boot_info (reg rsi c) (record h { cpu = c }) allocator
