-- ===== src/Boot/Ready.antt =====
-- What `kernel_main` has done when it comes to the loader (kernel/src/main.rs).
use zulu_os.Base.{
  ℕ, zero, suc, ◌+◌, ◌*◌, ◌/◌, ◌^◌, ◌-◌, ◌<◌, ◌≤◌, ◌≡◌, refl, sym, ◌∙◌, ap, Bool, true, false, List,
  [], none, some, arith, bit_or, Bool-cases, Option-cases, inl, inr, length, subst,
}
use zulu_os.Tasks.Maps.{lookup}
use zulu_os.Paging.{Paging, page_run}
use zulu_os.Mapping.{PageMapper}
use zulu_os.Alloc.{BumpAllocator, heap_start_address, heap_size}
use zulu_os.Elf.{Object, ElfSegment, collect_pages}
use zulu_os.Elf.Flags.{among}
use zulu_os.Elf.Pages.{Low, among-page_run}
use zulu_os.Elf.Load.Table.{AllPresent, touched, page_total, collect_pages-IsTable}
use zulu_os.Elf.Load.Placed.{CanLoad, PagesFit}
use zulu_os.Alloc.Requests.{AllValid, asked}
use zulu_os.Heap.{init_kernel_heap}
use zulu_os.Heap.Setup.{init_kernel_heap-none}
use zulu_os.Segments.{Descriptors, gdt_init}
use zulu_os.Segments.Naming.{gdt_init_lem}
use zulu_os.Interrupts.{ChainedPics, idt, pic_1_offset, pic_2_offset}
use zulu_os.Entry.Setup.{interrupt_flag, system_call_extensions, fsgsbase}
use zulu_os.Entry.Setup.Thread.{syscall_init_lem}
use zulu_os.Boot.{Hardware, Tables, init, stack_flags, map_stack}
use zulu_os.Boot.Stack.{map_stack_lem}

abbrev pub lowest_stack_page : ℕ
lowest_stack_page = 0xDEADB000

module _ (P : Paging) (O : Object P) (M : PageMapper P) (D : Descriptors) (C : ChainedPics) where
  open M use {S, flags_of, byte_at, frames_left, Free}

  -- The program can be loaded in the state that the bootloader leaves, its pages are neither the heap's nor
  -- the stack's, all these pages are free, and there are four frames for each. The vector of the segments
  -- and the map of the pages fit into the heap, with 16 bytes for the thread's data.
  pub record HasRoom (bytes : List ℕ) (ss : List (ElfSegment P O)) (s : S) : Type 0 where
    pub program : CanLoad P O M bytes ss s
    pub off_heap :
        (q : ℕ) → touched P O ss q ≡ true → among q (page_run 25 heap_start_address) ≡ false
    pub off_stack :
        (q : ℕ) → touched P O ss q ≡ true → among q (page_run 4 lowest_stack_page) ≡ false
    pub heap_free : (i : ℕ) → i < 25 → Free s (heap_start_address + i * 4096)
    pub stack_free : (i : ℕ) → i < 4 → Free s (lowest_stack_page + i * 4096)
    pub frames : 116 + 4 * page_total P O ss ≤ frames_left s
    pub vec_valid : AllValid 0 (O.vec_requests (length ss))
    pub vec_fits : 16 + asked (O.vec_requests (length ss)) ≤ heap_size
    pub map_fits : PagesFit P O M (heap_size - 16 - asked (O.vec_requests (length ss))) ss

  among_below : (n first q : ℕ) → q < first → among q (page_run n first) ≡ false
  among_below zero first q h = refl
  among_below (suc n) first q h = ground (arith, among_below n (first + 4096) q (omega arith))

  -- The state when the loader starts: the heap and the stack are mapped.
  pub prepared :
      (checks : Bool) (bytes : List ℕ) (ss : List (ElfSegment P O)) (s0 : S) (a : BumpAllocator)
      → HasRoom bytes ss s0
      → (s1 : S) × (s2 : S) × (init_kernel_heap P O M checks s0 a
          ≡ some (
            none,
            s1,
            record {
              heap_start = heap_start_address;
              heap_end = heap_start_address + heap_size;
              next = heap_start_address;
            },
          ))
        × (map_stack P O M D C (page_run 4 lowest_stack_page) s1 ≡ some s2)
        × ((i : ℕ)
            → i < 4
            → flags_of s2 (lowest_stack_page + i * 4096) ≡ some (stack_flags P O M D C))
        × ((i : ℕ) → i < 4 → M.Alone s2 (lowest_stack_page + i * 4096))
        × CanLoad P O M bytes ss s2
  unfolding heap_start_address
  prepared checks bytes ss s0 a h =
      let (s1, e1, left1, sound1, others1) =
        init_kernel_heap-none P O M checks s0 a h.program.sound h.heap_free
          (omega (arith, h.frames)) in
      let (s2, e2, f2, left2, sound2, alone2, alones2, others2) =
        map_stack_lem P O M D C 4 lowest_stack_page s1 sound1
          (λ i lt.
            others1 (lowest_stack_page + i * 4096)
              (among_below 25 heap_start_address (lowest_stack_page + i * 4096) (omega (arith, lt)))
              (h.stack_free i lt))
          (omega (arith, h.frames, left1)) in
      (
        s1,
        s2,
        e1,
        e2,
        λ i lt. ground (
          arith,
          f2 (lowest_stack_page + i * 4096),
          among-page_run P O 4 lowest_stack_page i (lowest_stack_page + i * 4096) lt refl,
        ),
        λ i lt.
            alone2 (lowest_stack_page + i * 4096)
              (among-page_run P O 4 lowest_stack_page i (lowest_stack_page + i * 4096) lt refl),
        record {
          low = h.program.low;
          all_present = h.program.all_present;
          in_file = h.program.in_file;
          free =
              λ q t. others2 q (h.off_stack q t) (others1 q (h.off_heap q t) (h.program.free q t));
          room = omega (arith, h.frames, left1, left2);
          sound = sound2;
        },
      )

  pub init_lem :
      (handler : ℕ) (h : Hardware)
      → handler < 2 ^ 47
      → h.has_fsgsbase ≡ true
      → (t : Tables P O M D C) × (init P O M D C h.has_fsgsbase handler h.registers ≡ some t)
  unfolding init
  init_lem handler h low has =
      let ready = (gdt_init_lem D).1 in
      let e : gdt_init D h.has_fsgsbase ≡ some ready.0 = ap (gdt_init D) has ∙ ready.1 in
      (
        record {
          segments = ready.0;
          interrupts = idt;
          pics = C.initialize (C.new pic_1_offset pic_2_offset);
          registers = record {
            sfmask = bit_or h.registers.sfmask interrupt_flag;
            efer = bit_or h.registers.efer system_call_extensions;
            cr4 = bit_or h.registers.cr4 fsgsbase;
            lstar = handler;
          };
        },
        rw (e, syscall_init_lem P handler h.registers low) refl,
      )

  -- A page that no segment has is not in the table.
  pub untouched :
      (ss : List (ElfSegment P O)) (table : List (ℕ × P.Flags)) (q : ℕ)
      → Low P O ss
      → AllPresent P O ss
      → collect_pages P O ss [] ≡ some table
      → touched P O ss q ≡ false
      → lookup q table ≡ none
  untouched ss table q low pres e out =
      let (table', e', ok) = collect_pages-IsTable P O ss low pres in
      let same : lookup q table ≡ lookup q table' =
        ap (λ o. elim o [ none ↦ none | some t ↦ lookup q t ]) (sym e ∙ e') in
      elim (Option-cases (lookup q table')) [
        | inl absent ↦ same ∙ absent
        | inr (flags, found) ↦ absurd (ground (arith, ok.key q flags found))
      ]

  -- No segment has a page of the stack.
  pub stack_apart :
      (bytes : List ℕ) (ss : List (ElfSegment P O)) (s0 : S) (i : ℕ)
      → HasRoom bytes ss s0
      → i < 4
      → touched P O ss (lowest_stack_page + i * 4096) ≡ false
  stack_apart bytes ss s0 i h lt =
      let q : ℕ = lowest_stack_page + i * 4096 in
      let of_stack : among q (page_run 4 lowest_stack_page) ≡ true =
        among-page_run P O 4 lowest_stack_page i q lt refl in
      elim (Bool-cases (touched P O ss q)) [
        | inl yes_touched ↦ absurd (ground (arith, h.off_stack q yes_touched))
        | inr out ↦ out
      ]

  -- The stack's pages after the loader.
  pub stack_kept :
      (bytes : List ℕ) (ss : List (ElfSegment P O)) (s0 s2 s3 : S)
      → HasRoom bytes ss s0
      → ((i : ℕ)
          → i < 4
          → flags_of s2 (lowest_stack_page + i * 4096) ≡ some (stack_flags P O M D C))
      → ((q : ℕ) → touched P O ss q ≡ false → flags_of s3 q ≡ flags_of s2 q)
      → (b : ℕ) → lowest_stack_page ≤ b
      → b < lowest_stack_page + 4096 * 4
      → flags_of s3 (b / 4096 * 4096) ≡ some (stack_flags P O M D C)
  stack_kept bytes ss s0 s2 s3 h mapped same b lo hi =
      let i : ℕ = b / 4096 - lowest_stack_page / 4096 in
      let q : ℕ = b / 4096 * 4096 in
      let here : lowest_stack_page + i * 4096 ≡ q = omega arith in
      let out : touched P O ss q ≡ false =
        subst (λ p. touched P O ss p ≡ false) here (stack_apart bytes ss s0 i h (omega arith)) in
      same q out ∙ ap (flags_of s2) (sym here) ∙ mapped i (omega arith)
