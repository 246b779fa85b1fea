-- ===== src/Heap/Setup.antt =====
-- The loop over the heap's pages and the whole set-up (kernel/src/allocator/mod.rs).
use zulu_os.Base.{
  ℕ, zero, suc, ◌+◌, ◌-◌, ◌*◌, ◌/◌, ◌<◌, ◌≤◌, ◌≡◌, ◌⊎◌, inl, inr, refl, ◌∙◌, subst, ap, Bool, true,
  false, List, [], ◌∷◌, Option, none, some, if◌then◌else◌, arith, usize_sub_small, Option-cases,
}
use zulu_os.Mapping.{PageMapper}
use zulu_os.Paging.{Paging, page_run}
use zulu_os.Elf.{Object}
use zulu_os.Elf.Flags.{among}
use zulu_os.Elf.Pages.{among-page_run}
use zulu_os.Alloc.Serial.{init_lem}
use zulu_os.Alloc.{BumpAllocator, heap_start_address, heap_size}
use zulu_os.Heap.{heap_flags, map_pages, map_heap, init_kernel_heap}

module _ (P : Paging) (O : Object P) (M : PageMapper P) where
  open P use {page_containing, range_inclusive}
  open M use {S, MapToError, allocate_frame, map_to, flags_of, frames_left, Free, Sound}

  map_pages_lem :
      (pages : List ℕ) (s : S) (q : ℕ)
      → (map_pages P O M pages s).0 ≡ none
      → flags_of (map_pages P O M pages s).1 q
        ≡ (if among q pages then some (heap_flags P O M) else flags_of s q)
  unfolding map_pages
  map_pages_lem [] s q e = refl
  map_pages_lem (page ∷ rest) s q e = elim (Option-cases ((allocate_frame s).0)) [
    | inl out ↦ absurd (ground arith)
    | inr (frame, got) ↦
        let s1 : S = (allocate_frame s).1 in
        let after : Option MapToError × S = map_to page frame (heap_flags P O M) s1 in
        elim (Option-cases (after.0)) [
          | inr (x, failed) ↦ absurd (ground arith)
          | inl fine ↦ ground (
            arith,
            M.allocate_frame_lem s q,
            M.map_to_lem page frame (heap_flags P O M) s1 q fine,
            map_pages_lem rest after.1 q,
          )
        ]
  ]

  -- The pages of the range: from the page of the first byte of the heap to that of its last.
  heap_pages :
      range_inclusive
        (page_containing heap_start_address)
        (page_containing (heap_start_address + heap_size - 1))
      ≡ page_run 25 heap_start_address
  unfolding heap_start_address heap_size
  heap_pages =
      let first : page_containing heap_start_address ≡ heap_start_address =
        P.page_containing_lem heap_start_address in
      let last : page_containing (heap_start_address + heap_size - 1)
          ≡ heap_start_address + 24 * 4096 =
        P.page_containing_lem (heap_start_address + heap_size - 1) in
      rw (first, last) (P.range_inclusive_lem heap_start_address 24)

  init_kernel_heap-map_heap :
      (checks : Bool) (s : S) (a : BumpAllocator)
      → init_kernel_heap P O M checks s a
        ≡ map_heap P O M checks (page_run 25 heap_start_address) s a
  unfolding init_kernel_heap heap_start_address heap_size
  init_kernel_heap-map_heap checks s a =
      rw
        (
          P.try_new_low heap_start_address (omega arith),
          P.add_low heap_start_address heap_size (omega arith),
          usize_sub_small true (heap_start_address + heap_size) 1 (omega arith) (omega arith),
          P.try_new_low (heap_start_address + heap_size - 1) (omega arith),
        )
        (ap (λ pages. map_heap P O M checks pages s a) heap_pages)

  -- With four frames for each page the loop over free pages ends without an error, and leaves the other
  -- pages free.
  map_pages-none :
      (n first : ℕ) (s : S)
      → Sound s
      → ((i : ℕ) → i < n → Free s (first + i * 4096))
      → 4 * n ≤ frames_left s
      → ((map_pages P O M (page_run n first) s).0 ≡ none)
        × (frames_left s ≤ frames_left (map_pages P O M (page_run n first) s).1 + 4 * n)
        × Sound (map_pages P O M (page_run n first) s).1
        × ((q : ℕ)
            → among q (page_run n first) ≡ false
            → Free s q
            → Free (map_pages P O M (page_run n first) s).1 q)
  unfolding map_pages
  map_pages-none zero first s sound free room = (refl, omega arith, sound, λ q out was. was)
  map_pages-none (suc n) first s sound free room =
      let (frame, got, left, sound1, unused) = M.allocate_frame_some s (omega arith) sound in
      let s1 : S = (allocate_frame s).1 in
      let here : first + 0 * 4096 ≡ first = omega arith in
      let (fine, left2, sound2, alone, others1, frees) =
        M.map_to_none first frame (heap_flags P O M) s1 sound1 unused
          (M.allocate_frame-Free s first (subst (Free s) here (free 0 (omega arith))))
          (omega arith) in
      let s2 : S = (map_to first frame (heap_flags P O M) s1).1 in
      let (e, less, sound3, others) =
        map_pages-none n (first + 4096) s2 sound2
          (λ i lt.
            let shift : first + suc i * 4096 ≡ first + 4096 + i * 4096 = omega arith in
            frees (first + 4096 + i * 4096) (omega arith) (
              M.allocate_frame-Free s (first + 4096 + i * 4096)
                (subst (Free s) shift (free (suc i) (omega arith)))))
          (omega (arith, left2)) in
      rw (got, fine)
        (
          e,
          omega (arith, left2, less),
          sound3,
          λ q out was.
              others q (ground arith) (frees q (ground arith) (M.allocate_frame-Free s q was)),
        )

  -- `init_kernel_heap` does not panic. Either mapping fails, and then it says so and leaves the
  -- bump allocator as it is; or the page of every byte of the heap is mapped, present and
  -- writable, and the allocator has the whole heap, with nothing granted.
  pub init_kernel_heap_lem :
      (checks : Bool) (s : S) (a : BumpAllocator)
      → (s' : S) × (((e : MapToError) × (init_kernel_heap P O M checks s a ≡ some (some e, s', a)))
          ⊎ ((init_kernel_heap P O M checks s a
                ≡ some (
                  none,
                  s',
                  record {
                    heap_start = heap_start_address;
                    heap_end = heap_start_address + heap_size;
                    next = heap_start_address;
                  },
                ))
              × ((b : ℕ)
                  → heap_start_address ≤ b
                  → b < heap_start_address + heap_size
                  → flags_of s' (b / 4096 * 4096) ≡ some (heap_flags P O M))))
  unfolding heap_start_address heap_size map_heap
  init_kernel_heap_lem checks s a =
      let pages : List ℕ = page_run 25 heap_start_address in
      (
        (map_pages P O M pages s).1,
        elim (Option-cases ((map_pages P O M pages s).0)) [
          | inr (e, failed) ↦
              inl (e, init_kernel_heap-map_heap checks s a ∙ rw (failed, map_heap) refl)
          | inl fine ↦ inr (
            init_kernel_heap-map_heap checks s a
                ∙ rw (fine, map_heap, init_lem checks a heap_start_address heap_size (omega arith))
                    refl,
            λ b lo hi.
                let here : among (b / 4096 * 4096) pages ≡ true =
                  among-page_run P O 25 heap_start_address (b / 4096 - heap_start_address / 4096)
                    (b / 4096 * 4096) (omega arith) (omega arith) in
                ground (arith, map_pages_lem pages s (b / 4096 * 4096) fine),
          )
        ],
      )

  -- Where the 25 pages of the heap are free and 100 frames are left, `init_kernel_heap` succeeds, takes
  -- no more than these frames, and leaves the other pages free.
  pub init_kernel_heap-none :
      (checks : Bool) (s : S) (a : BumpAllocator)
      → Sound s
      → ((i : ℕ) → i < 25 → Free s (heap_start_address + i * 4096))
      → 100 ≤ frames_left s
      → (s' : S) × (init_kernel_heap P O M checks s a
          ≡ some (
            none,
            s',
            record {
              heap_start = heap_start_address;
              heap_end = heap_start_address + heap_size;
              next = heap_start_address;
            },
          ))
        × (frames_left s ≤ frames_left s' + 100)
        × Sound s'
        × ((q : ℕ) → among q (page_run 25 heap_start_address) ≡ false → Free s q → Free s' q)
  unfolding heap_start_address heap_size map_heap
  init_kernel_heap-none checks s a sound free room =
      let (fine, less, sound2, others) = map_pages-none 25 heap_start_address s sound free room in
      (
        (map_pages P O M (page_run 25 heap_start_address) s).1,
        init_kernel_heap-map_heap checks s a
            ∙ rw (fine, map_heap, init_lem checks a heap_start_address heap_size (omega arith))
                refl,
        less,
        sound2,
        others,
      )
