-- ===== src/Mapping.antt =====
-- What the kernel takes from the mapper and the frame allocator of the crate `x86_64`, and the pair of
-- calls by which it maps a page (kernel/src/main.rs, kernel/src/elf/mod.rs). A panic is `none`.
pub mod Guard
pub mod Assembled
pub mod Samples
pub mod Framed
use zulu_os.Base.{
  ℕ, ◌+◌, ◌*◌, ◌/◌, ◌<◌, ◌≤◌, ◌≡◌, ◌≢◌, refl, Bool, true, Option, none, some, ◌==◌, if◌then◌else◌,
  arith,
}
use zulu_os.Paging.{Paging, present, writable, mapped}

-- One state of both, and of the memory behind the pages: `mapper_of` is the mapper in it, `flags_of` is what a page was mapped with. Up
-- to three frames of a call of `map_to` go to its tables. `Free` says that the page is neither mapped
-- nor part of a huge page. The contracts of `map_to` and of `FrameAllocator` are on frames: `Sound` says
-- that no frame the allocator can still give is a table's or a page's, or is given twice, `Unused` that a
-- frame is neither a table's nor a page's and that the allocator will not give it, and `Alone` that no
-- table and no other page stands on the frame of the page. Only such a page's bytes can be written
-- without a change on another page. Pages here are those that `flags_of` knows, of 4096 bytes; the
-- bootloader's mapping of all physical memory, in huge pages, is left aside.
pub record PageMapper (P : Paging) : Type 1 where
  pub S : Type 0
  pub MapToError : Type 0
  pub frame_allocation_failed : MapToError
  pub allocate_frame : S → Option ℕ × S
  pub map_to : ℕ → ℕ → P.Flags → S → Option MapToError × S
  pub update_flags : ℕ → P.Flags → S → Option S
  pub write_byte : ℕ → ℕ → S → Option S
  pub mapper_of : S → P.Mapper
  pub flags_of : S → ℕ → Option P.Flags
  pub byte_at : S → ℕ → ℕ
  pub frames_left : S → ℕ
  pub Free : S → ℕ → Type 0
  pub Sound : S → Type 0
  pub Unused : S → ℕ → Type 0
  pub Alone : S → ℕ → Type 0
  pub allocate_frame_lem : (s : S) (q : ℕ) → flags_of (allocate_frame s).1 q ≡ flags_of s q
  pub allocate_frame_some :
      (s : S)
      → 0 < frames_left s
      → Sound s
      → (frame : ℕ) × ((allocate_frame s).0 ≡ some frame)
        × (frames_left s ≤ frames_left (allocate_frame s).1 + 1)
        × Sound (allocate_frame s).1
        × Unused (allocate_frame s).1 frame
  pub allocate_frame-Free : (s : S) (q : ℕ) → Free s q → Free (allocate_frame s).1 q
  pub allocate_frame-Alone : (s : S) (q : ℕ) → Alone s q → Alone (allocate_frame s).1 q
  pub map_to_lem :
      (page frame : ℕ) (flags : P.Flags) (s : S) (q : ℕ)
      → (map_to page frame flags s).0 ≡ none
      → flags_of (map_to page frame flags s).1 q ≡ (if page == q then some flags else flags_of s q)
  pub map_to_none :
      (page frame : ℕ) (flags : P.Flags) (s : S)
      → Sound s
      → Unused s frame
      → Free s page
      → 3 ≤ frames_left s
      → ((map_to page frame flags s).0 ≡ none)
        × (frames_left s ≤ frames_left (map_to page frame flags s).1 + 3)
        × Sound (map_to page frame flags s).1
        × Alone (map_to page frame flags s).1 page
        × ((q : ℕ) → page ≢ q → Alone s q → Alone (map_to page frame flags s).1 q)
        × ((q : ℕ) → page ≢ q → Free s q → Free (map_to page frame flags s).1 q)
  pub update_flags_lem :
      (page : ℕ) (flags old : P.Flags) (s : S)
      → flags_of s page ≡ some old
      → (s' : S) × (update_flags page flags s ≡ some s')
        × ((q : ℕ) → flags_of s' q ≡ (if page == q then some flags else flags_of s q))
        × ((q : ℕ) → Alone s q → Alone s' q)
        × ((b : ℕ) → byte_at s' b ≡ byte_at s b)
  pub write_byte_lem :
      (a v : ℕ) (flags : P.Flags) (s : S)
      → flags_of s (a / 4096 * 4096) ≡ some flags
      → P.contains flags present ≡ true
      → P.contains flags writable ≡ true
      → Alone s (a / 4096 * 4096)
      → (s' : S) × (write_byte a v s ≡ some s')
        × ((q : ℕ) → flags_of s' q ≡ flags_of s q)
        × ((q : ℕ) → Alone s q → Alone s' q)
        × ((b : ℕ) (other : P.Flags)
            → flags_of s (b / 4096 * 4096) ≡ some other
            → byte_at s' b ≡ (if a == b then v else byte_at s b))
  pub translate_lem :
      (s : S) (page : ℕ) (flags : P.Flags)
      → flags_of s page ≡ some flags
      → P.contains flags present ≡ true
      → P.translate (mapper_of s) page ≡ mapped flags

module _ (P : Paging) (M : PageMapper P) where
  open M use {S, allocate_frame, map_to, flags_of, frames_left, Free, Sound, Alone}

  -- `allocate_frame().unwrap()`, and `map_to(…).unwrap().flush()` with that frame
  pub map_page : ℕ → P.Flags → S → Option S
  map_page page flags s = elim ((allocate_frame s).0) [
    | none ↦ none
    | some frame ↦ elim ((map_to page frame flags (allocate_frame s).1).0) [
      | some e ↦ none
      | none ↦ some ((map_to page frame flags (allocate_frame s).1).1)
    ]
  ]

  -- With four frames left a free page is mapped on a frame of its own, and no other page is touched.
  pub map_page_lem :
      (page : ℕ) (flags : P.Flags) (s : S)
      → Sound s
      → Free s page
      → 4 ≤ frames_left s
      → (s' : S) × (map_page page flags s ≡ some s')
        × ((q : ℕ) → flags_of s' q ≡ (if page == q then some flags else flags_of s q))
        × (frames_left s ≤ frames_left s' + 4)
        × Sound s'
        × Alone s' page
        × ((q : ℕ) → page ≢ q → Alone s q → Alone s' q)
        × ((q : ℕ) → page ≢ q → Free s q → Free s' q)
  unfolding map_page
  map_page_lem page flags s sound free room =
      let (frame, got, left, sound1, unused) = M.allocate_frame_some s (omega arith) sound in
      let s1 : S = (allocate_frame s).1 in
      let (fine, left2, sound2, alone, others, frees) =
        M.map_to_none page frame flags s1 sound1 unused (M.allocate_frame-Free s page free)
          (omega arith) in
      (
        (map_to page frame flags s1).1,
        rw (got, map_page, fine) refl,
        λ q. ground (arith, M.map_to_lem page frame flags s1 q fine, M.allocate_frame_lem s q),
        omega (arith, left2),
        sound2,
        alone,
        λ q ne was. others q ne (M.allocate_frame-Alone s q was),
        λ q ne was. frees q ne (M.allocate_frame-Free s q was),
      )
