-- ===== src/Boot/Program.antt =====
-- The kernel (kernel/src/main.rs) and the user program that it carries (userspace_test/src/main.rs).
use zulu_os.Base.{
  ℕ, zero, suc, ◌+◌, ◌*◌, ◌/◌, ◌^◌, ◌<◌, ◌≤◌, ◌≡◌, refl, sym, ◌∙◌, subst, Bool, true, false, List,
  ◌∷◌, ◌++◌, Option, some, arith,
}
use zulu_os.Paging.{Paging, present, user_accessible}
use zulu_os.Mapping.{PageMapper}
use zulu_os.Alloc.{BumpAllocator}
use zulu_os.Vga.{Volatile, Writer}
use zulu_os.Vga.Document.{Document, Shows, type_bytes}
use zulu_os.Syscall.{read_only, halted, bytes_at, write_text, Kernel}
use zulu_os.Syscall.Slices.{UserPage, MappedFor}
use zulu_os.Syscall.Program.{test_text, user_start, user_panic, user_start_lem}
use zulu_os.Elf.{Object, ProgramHeader, ElfSegment, ElfFile, read_segments, relocate}
use zulu_os.Elf.Pages.{Low, Low-middle}
use zulu_os.Elf.Load.Table.{AllPresent}
use zulu_os.Elf.Load.Copied.{covers, file_byte}
use zulu_os.Elf.Load.Placed.{InFile, InFile-middle, Uncovered, CanLoad}
use zulu_os.Elf.Load.Granted.{AllPresent-middle, present_runs, user_runs}
use zulu_os.Segments.{Descriptors}
use zulu_os.Interrupts.{ChainedPics}
use zulu_os.Entry.{rsi, rsp, Cpu, reg}
use zulu_os.Entry.Setup.{enter_kernel}
use zulu_os.Entry.Setup.Thread.{enter_kernel_lem}
use zulu_os.Boot.{BootInfo, Hardware, Image, Started, start}
use zulu_os.Boot.Ready.{HasRoom}
use zulu_os.Boot.Handover.{IsStarted, kernel_main_lem}

bytes_at_same :
    (f g : ℕ → ℕ) (ptr n : ℕ)
    → ((b : ℕ) → ptr ≤ b → b < ptr + n → f b ≡ g b)
    → bytes_at f ptr n ≡ bytes_at g ptr n
bytes_at_same f g ptr zero same = refl
bytes_at_same f g ptr (suc n) same =
    let rest = bytes_at_same f g (ptr + 1) n (λ b lo hi. same b (omega arith) (omega arith)) in
    rw (same ptr (omega arith) (omega arith), rest) refl

module _ (P : Paging) (O : Object P) (M : PageMapper P) where
  -- The ten bytes of the string stand in the file part of one segment, which user mode may read, and no
  -- later segment covers them.
  pub record HasString (bytes : List ℕ) (elf_file : ElfFile P O) (ptr : ℕ) : Type 0 where
    pub before : List (ElfSegment P O)
    pub section : ElfSegment P O
    pub after : List (ElfSegment P O)
    pub split : elf_file.segments ≡ before ++ section ∷ after
    pub for_user : P.contains section.flags user_accessible ≡ true
    pub covered : (b : ℕ) → ptr ≤ b → b < ptr + 10 → covers P O M section b ≡ true
    pub last : (b : ℕ) → ptr ≤ b → b < ptr + 10 → Uncovered P O M after b
    pub text : bytes_at (file_byte P O M bytes section) ptr 10 ≡ test_text

  inside :
      (bytes : List ℕ) (elf_file : ElfFile P O) (ptr : ℕ) (t : HasString bytes elf_file ptr) (b : ℕ)
      → InFile P O M bytes elf_file.segments
      → ptr ≤ b
      → b < ptr + 10
      → (t.section.addr.start ≤ b) × (b < t.section.addr.start + t.section.addr.len)
  inside bytes elf_file ptr t b ok lo hi =
      let fits =
        InFile-middle P O M bytes t.before t.after t.section
          (subst (InFile P O M bytes) t.split ok) in
      ground (arith, t.covered b lo hi, fits)

module _ (P : Paging) (O : Object P) (M : PageMapper P) (D : Descriptors) (C : ChainedPics)
    (V : Volatile) (checks : Bool) where
  open M use {S, mapper_of, byte_at}

  -- What a system call of the program can see: it runs with interrupts masked.
  abbrev pub running : Writer V.Cell → Started P O M D C → Kernel V P checks
  running console r = record {
    console = console;
    mapper = mapper_of r.state;
    memory = byte_at r.state;
    interrupts = false;
  }

  pub string_low :
      (bytes : List ℕ) (elf_file : ElfFile P O) (ptr : ℕ) {s : S}
      → HasString P O M bytes elf_file ptr
      → CanLoad P O M bytes elf_file.segments s
      → ptr + 10 ≤ 2 ^ 47
  string_low bytes elf_file ptr string can =
      let top =
        inside P O M bytes elf_file ptr string (ptr + 9) can.in_file (omega arith) (omega arith) in
      let low =
        Low-middle P O string.before string.after string.section
          (subst (Low P O) string.split can.low) in
      omega (arith, top.1, low)

  pub readable :
      (bytes : List ℕ) (elf_file : ElfFile P O) (ptr kernel_rsp : ℕ) (unmask : ℕ → ℕ)
      (console : Writer V.Cell) (r : Started P O M D C) (t : HasString P O M bytes elf_file ptr)
      → InFile P O M bytes elf_file.segments
      → AllPresent P O elf_file.segments
      → IsStarted P O M D C unmask bytes elf_file kernel_rsp r
      → (b : ℕ) → ptr ≤ b
      → b < ptr + 10
      → UserPage P (running console r).mapper read_only (b / 4096 * 4096)
  readable bytes elf_file ptr kernel_rsp unmask console r t ok pres s b lo hi =
      let (from, below) = inside P O M bytes elf_file ptr t b ok lo hi in
      let (g, at, grants) = s.granted t.before t.after t.section b t.split from below in
      let has_present = grants present present_runs (
        AllPresent-middle P O M t.before t.after t.section (subst (AllPresent P O) t.split pres)) in
      subst (λ x. MappedFor P x read_only)
        (sym (M.translate_lem r.state (b / 4096 * 4096) g at has_present))
        (grants user_accessible user_runs t.for_user)

  module _ (MemoryMap : Type 0) (started : ℕ → ℕ → MemoryMap → S)
      (parse : List ℕ → Option (ℕ × List ProgramHeader)) (mask unmask : ℕ → ℕ)
      (inner : Cpu → Cpu) where
    -- `_start` hands the stack pointer on, so that it is the one behind GS.
    pub start_lem :
        (image : Image) (boot_info : BootInfo MemoryMap) (main : ℕ) (h : Hardware)
        (a : BumpAllocator) (entry : ℕ) (headers : List ProgramHeader)
        (segments : List (ElfSegment P O)) (elf_file : ElfFile P O)
        → h.has_fsgsbase ≡ true
        → image.syscall_handler < 2 ^ 47
        → boot_info.physical_memory_offset + h.level4_frame < 2 ^ 47
        → parse image.child_process ≡ some (entry, headers)
        → read_segments P O checks headers ≡ some segments
        → entry < 2 ^ 47
        → relocate P O (record { segments = segments; entry_point = entry }) ≡ some elf_file
        → HasRoom P O M D C image.child_process elf_file.segments (
            started
              (boot_info.physical_memory_offset + h.level4_frame)
              boot_info.physical_memory_offset
              boot_info.memory_map)
        → (r : Started P O M D C) × (start P O M D C MemoryMap started parse mask unmask inner
              checks image boot_info main h a
            ≡ some r)
          × IsStarted P O M D C unmask image.child_process elf_file (reg rsp h.cpu) r
    unfolding start
    start_lem image boot_info main h a entry headers segments elf_file has handler_low offset_low
          parsed read entry_low moved room =
        let c : Cpu = enter_kernel inner main h.cpu in
        let (r, e, s) =
          kernel_main_lem P O M D C MemoryMap started parse mask unmask inner checks image boot_info
            (reg rsi c) (record h { cpu = c }) a entry headers segments elf_file has handler_low
            offset_low parsed read entry_low moved room in
        (
          r,
          e,
          subst (λ sp. IsStarted P O M D C unmask image.child_process elf_file sp r)
              ((enter_kernel_lem inner main h.cpu).0) s,
        )

    -- From `_start` on, under the conditions of `kernel_main_lem`: with the ten bytes of "Test print" in
    -- a segment of the program that user mode may read, below no other segment, and a screen that shows
    -- a document, the kernel starts the program on a stack of its own, with the stack pointer that the
    -- bootloader gave behind GS. The calls of `_start` of userspace_test, answered by this kernel with the
    -- pages and the memory that it has then, end on a core that halts with interrupts on; the screen
    -- shows the line "write" and the text after the document. A panic of the program ends in the same
    -- way, without the text.
    pub start_prints :
        (image : Image) (boot_info : BootInfo MemoryMap) (main : ℕ) (h : Hardware)
        (a : BumpAllocator) (entry : ℕ) (headers : List ProgramHeader)
        (segments : List (ElfSegment P O)) (elf_file : ElfFile P O) (ptr unused : ℕ)
        (console : Writer V.Cell) (d : Document)
        → h.has_fsgsbase ≡ true
        → image.syscall_handler < 2 ^ 47
        → boot_info.physical_memory_offset + h.level4_frame < 2 ^ 47
        → parse image.child_process ≡ some (entry, headers)
        → read_segments P O checks headers ≡ some segments
        → entry < 2 ^ 47
        → relocate P O (record { segments = segments; entry_point = entry }) ≡ some elf_file
        → HasRoom P O M D C image.child_process elf_file.segments (
            started
              (boot_info.physical_memory_offset + h.level4_frame)
              boot_info.physical_memory_offset
              boot_info.memory_map)
        → HasString P O M image.child_process elf_file ptr
        → Shows V console d
        → (r : Started P O M D C) × (start P O M D C MemoryMap started parse mask unmask inner
              checks image boot_info main h a
            ≡ some r)
          × IsStarted P O M D C unmask image.child_process elf_file (reg rsp h.cpu) r
          × (w : Writer V.Cell) × (user_start V P checks unused
                (record { ptr = ptr; len = 10 })
                (running console r)
              ≡ halted (record (running console r) { console = w; interrupts = true }))
          × Shows V w
              (type_bytes console.color_code test_text (type_bytes console.color_code write_text d))
          × (user_panic V P checks unused (running console r)
              ≡ halted (record (running console r) { interrupts = true }))
    start_prints image boot_info main h a entry headers segments elf_file ptr unused console d has
          handler_low offset_low parsed read entry_low moved room string shows =
        let (r, e, s) =
          start_lem image boot_info main h a entry headers segments elf_file has handler_low
            offset_low parsed read entry_low moved room in
        let bytes : List ℕ = image.child_process in
        let (w, ended, shown, on_panic) =
          user_start_lem V P checks (running console r) d ptr unused
            (string_low bytes elf_file ptr string room.program)
            (readable bytes elf_file ptr (reg rsp h.cpu) unmask console r string
              room.program.in_file room.program.all_present s)
            (bytes_at_same (byte_at r.state) (file_byte P O M bytes string.section) ptr 10
                (λ b lo hi.
                  s.placed string.before string.after string.section b string.split
                    (string.covered b lo hi) (string.last b lo hi))
              ∙ string.text)
            shows in
        (r, e, s, w, ended, shown, on_panic)
