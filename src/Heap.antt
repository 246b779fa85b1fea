-- ===== src/Heap.antt =====
-- `init_kernel_heap` of kernel/src/allocator/mod.rs. A panic is `none`.
pub mod Setup
mod Tests
use zulu_os.Base.{
  ℕ, zero, suc, ◌+◌, ◌-◌, ◌*◌, ◌/◌, ◌^◌, ◌<◌, ◌≤◌, ◌≡◌, ◌⊎◌, inl, inr, refl, ◌∙◌, subst, ap, Bool,
  true, ◌||◌, false, List, [], ◌∷◌, Option, none, some, ◌>>=◌, ◌==◌, if◌then◌else◌, arith,
  usize_sub, usize_sub_small, usize_add_small, Option-cases,
}
use zulu_os.Mapping.{PageMapper}
use zulu_os.Paging.{Paging, present, writable, page_run}
use zulu_os.Elf.{Object}
use zulu_os.Elf.Flags.{among}
use zulu_os.Elf.Pages.{among-page_run}
use zulu_os.Alloc.Serial.{init_lem}
use zulu_os.Alloc.{BumpAllocator, init, heap_start_address, heap_size}

module _ (P : Paging) (O : Object P) (M : PageMapper P) where
  open P use {try_new, add, page_containing, range_inclusive}
  open M use {S, MapToError, allocate_frame, map_to, flags_of, frames_left, Free}

  abbrev pub heap_flags : P.Flags
  heap_flags = O.union (O.only present) (O.only writable)

  -- The loop over the pages: the error that ends it, if one does, and the state.
  pub map_pages : List ℕ → S → Option MapToError × S
  map_pages [] s = (none, s)
  map_pages (page ∷ page_range) s = elim ((allocate_frame s).0) [
    | none ↦ (some M.frame_allocation_failed, (allocate_frame s).1)
    | some frame ↦
        let after = map_to page frame heap_flags (allocate_frame s).1 in
        elim (after.0) [ some e ↦ (some e, after.1) | none ↦ map_pages page_range after.1 ]
  ]

  -- `init_kernel_heap` from its loop on
  pub map_heap : Bool → List ℕ → S → BumpAllocator → Option (Option MapToError × S × BumpAllocator)
  map_heap checks page_range s allocator = elim ((map_pages page_range s).0) [
    | some e ↦ some (some e, (map_pages page_range s).1, allocator)
    | none ↦ do
      allocator' ← init checks allocator heap_start_address heap_size
      some (none, (map_pages page_range s).1, allocator')
  ]

  pub init_kernel_heap : Bool → S → BumpAllocator → Option (Option MapToError × S × BumpAllocator)
  init_kernel_heap checks s allocator = do
    heap_start ← try_new heap_start_address
    past ← add heap_start heap_size
    before_past ← usize_sub true past 1
    heap_end ← try_new before_past
    let page_range = range_inclusive (page_containing heap_start) (page_containing heap_end)
    map_heap checks page_range s allocator
