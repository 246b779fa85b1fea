-- ===== src/Lib.antt =====
-- Zulu OS, a small x86-64 kernel in Rust: verification of its core.
--
-- The program. The kernel (kernel/src) prints on the VGA text screen, maps and hands out
-- memory, runs asynchronous tasks on an executor that sleeps when nothing is ready, reads the
-- keyboard through an interrupt, and serves system calls of user programs, which reach it
-- through a small library (syscall/src/lib.rs).
--
-- The files, each with the code it is about:
-- - Base: numbers, lists, options, machine words (`usize`, 64 bits) and bit masks.
-- - Vga: kernel/src/vga_buffer.rs. `Writer` and its methods over a grid of volatile cells, an
--   index out of range being a panic. Vga.Document is the abstract view, a document that grows
--   by typing; Vga.Cells and Vga.Scroll have the loops, Vga.Refine and Vga.Text the refinement.
--   Vga.Locked has the lock around the writer and the interrupts that may come while a text is
--   printed (Vga.Locked.Whole).
-- - Alloc: kernel/src/allocator/bump.rs, and `align_up`, `HEAP_START` and `HEAP_SIZE` of
--   kernel/src/allocator/mod.rs. Alloc.Align is on rounding, Alloc.Serial on one thread,
--   Alloc.Nested on blocks released in the opposite order, Alloc.Requests on what collections
--   ask of the heap (with `alloc_error_handler` of kernel/src/lib.rs), and Alloc.Threads on
--   threads that share the allocator: a step relation with one step for each atomic operation of
--   `alloc` and `dealloc`, which Alloc.Disjoint and Alloc.Safety reason about.
-- - Mapping: what the kernel relies on of the mapper and the frame allocator, and the calls by
--   which it maps one page. Mapping.Guard has `init`, `mapper` and `MapperGuard` of
--   kernel/src/memory.rs, Mapping.Assembled puts page tables and the frame allocator of Memory
--   together.
-- - Heap: `init_kernel_heap` of kernel/src/allocator/mod.rs, over a mapper and a frame
--   allocator. Heap.Setup is on its loop and the whole.
-- - Memory: `BootInfoFrameAllocator` of kernel/src/memory.rs. Memory.Frames is on one call,
--   Memory.Distinct on one call after the other.
-- - Paging: what the kernel relies on of the page tables of the crate x86_64.
-- - Syscall: kernel/src/syscall/mod.rs (the check of user pointers), handler.rs (dispatch and
--   result), io.rs, process.rs, and the numbers of syscall/src/lib.rs. Syscall.Slices is on the
--   check, Syscall.Calls on whole calls, Syscall.Encoding on the value that a caller gets.
--   Syscall.Program is the user program userspace_test/src/main.rs against the kernel's handler.
-- - Entry: the naked functions `syscall_N` of syscall/src/lib.rs, `syscall_handler` of
--   handler.rs, `_start` and `enter_user_mode` of kernel/src/main.rs and `breakpoint_handler` of
--   kernel/src/interrupts.rs, run instruction by instruction on a machine of registers, memory
--   and GS, and `write` and `read` of the library. Entry.Returns is on one call, Entry.Library
--   on the library against the kernel's handler, Entry.Breakpoint on a breakpoint; Entry.Setup
--   has `syscall::init` and `init_thread_data`, which must have run before; Entry.Setup.Thread
--   is on what they leave, Entry.Setup.Masked on interrupts during a call, Entry.Setup.Access on
--   `with_thread_data`, and Entry.Session on one call after the other.
-- - Elf: kernel/src/elf/mod.rs and types.rs. Elf itself goes from the program headers to the
--   table of the pages to map: Elf.Flags is on permissions, Elf.Pages on the table, Elf.Moves on
--   the move to a fixed address. Elf.Load has the three loops that map the pages, copy the
--   segments and take the write permission back, and `load` itself: Elf.Load.Table is on the
--   table as a map, Elf.Load.Mapped and Elf.Load.Copied on the loops, Elf.Load.Opened on the
--   pages between them, Elf.Load.Placed on a whole program, Elf.Load.Granted on what its pages
--   allow.
-- - Segments: kernel/src/gdt.rs, the descriptor table and the registers that name its entries
--   (Segments.Naming).
-- - Interrupts: kernel/src/interrupts.rs, the descriptor table and the handlers of the timer and
--   the keyboard, from the interrupt to its end (Interrupts.Served); Interrupts.Faults has the
--   handlers of faults and the panic of main.rs.
-- - Boot: `_start` and `kernel_main` of kernel/src/main.rs, and `init` of kernel/src/lib.rs.
--   Boot.Stack is on the pages of the user stack, Boot.Ready on the state when the loader
--   starts, Boot.Loads on the loader there, Boot.Handover on the way to the first instruction of
--   the program, Boot.Program on the kernel together with the program that it carries,
--   Boot.FirstCall on its first system call, Boot.FromMap on the boot with the frames of the
--   memory map.
-- - Testing: the test runner of kernel/src/lib.rs, over kernel/src/serial.rs (Testing.Verdict).
-- - Tasks: kernel/src/task/mod.rs and executor.rs. Tasks.Maps stands for BTreeMap, Tasks.Queue
--   for ArrayQueue of crossbeam-queue; Tasks.Consistent and Tasks.Ends are on the executor's
--   tables and its loop, Tasks.Fair on the order in which it comes to the tasks, Tasks.Rounds on
--   `run`; Tasks.Simple is kernel/src/task/simple_executor.rs; Tasks.Sleep has `sleep_if_idle`
--   and `wait_for_interrupts_if` of kernel/src/sys.rs, with interrupts between the instructions.
-- - Keyboard: kernel/src/task/keyboard.rs. Keyboard.Races has the steps of `poll_next` with the
--   keyboard interrupt between any two, Keyboard.Wakeups the invariant, Keyboard.Keypresses the
--   loop of `print_keypresses` on a run of scancodes, Keyboard.Typing its task together with the
--   interrupts: Keyboard.Typing.Strikes is on a batch of them, Keyboard.Typing.Polls on a poll,
--   Keyboard.Typing.Shown on what is on the screen.
--
-- How the parts meet. System calls print through the writer of Vga, so the theorems on them
-- speak of the same documents. The system calls return to the user program with the stack
-- pointer that `kernel_main` leaves behind GS. `kernel_main` goes through Segments,
-- Interrupts, Heap, Alloc, Elf.Load and Entry.Setup, whose lemmas its proof puts together. The
-- calls of the user program run on the pages and the memory that it leaves. The keyboard
-- stream stands on the queue that the executor uses. The loader's pages stand on frames whose
-- uniqueness Mapping.Assembled takes from Memory.Distinct, and its vector and map on the heap
-- of Alloc. Code that is not of this repository is a record of operations and laws:
-- Vga.Volatile, Memory.Physical, Paging.Paging, Tasks.Queue.ArrayQueue, Keyboard.AtomicWaker,
-- Keyboard.Keypresses.Decoder, Elf.Object, Mapping.Assembled.OffsetPageTable (and
-- Mapping.PageMapper, which is filled by it and Memory), Segments.Descriptors,
-- Entry.Setup.Access.Masking, Interrupts.ChainedPics, Interrupts.Faults.Formats; futures are a
-- type and a poll function, and the parser of ELF files is a function. The laws are the
-- documented behaviour, and the tests fill the records that the results below stand on with
-- concrete ones.
--
-- Conventions. Code that may panic gives an Option, `none` being the panic, or has a panic
-- among its results. `checks` is the build profile: with it an overflow of `+` or `-` panics,
-- without it the sum wraps; atomic additions wrap always. A shared object is passed and
-- returned; where it is shared between threads or with interrupts, the steps of a relation are
-- the atomic operations.
--
-- Bounds. The loops of the writer run over 25 rows and 80 columns, as constants.
-- `run_ready_tasks` runs on fuel, since futures may wake each other for ever; where every poll
-- pays for the tasks that it wakes out of a budget, one more than the queued ids and the
-- budgets together is enough fuel. `run` is given its rounds. A poll of `print_keypresses`
-- needs a unit of fuel for each scancode in the queue and one more. `simple_run` is on fuel
-- too: one more than the polls that are left is enough. All else is structural recursion.
--
-- What `Vec` and `BTreeMap` ask of the heap while the loader runs is a function of Elf.Object,
-- of the number of segments and of the pages; that it fits is a condition. The queues of Tasks
-- and Keyboard take no heap here.
--
-- Not modelled: formatting by core::fmt; handlers of exceptions that print while a text is
-- printed, which no mask keeps away; parsing an ELF file, decoding keys, and the walk of page
-- tables, which crates do; the configuration of main.rs and lib.rs for tests; kernel/build.rs.
pub mod Base
pub mod Vga
pub mod Alloc
pub mod Memory
pub mod Paging
pub mod Syscall
pub mod Tasks
pub mod Keyboard
pub mod Entry
pub mod Elf
pub mod Segments
pub mod Interrupts
pub mod Heap
pub mod Mapping
pub mod Boot
pub mod Testing
