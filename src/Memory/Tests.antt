-- ===== src/Memory/Tests.antt =====
-- Runs and witnesses for kernel/src/memory.rs.
use zulu_os.Base.{
  ℕ, ◌≡◌, length, refl, true, false, List, [], ◌∷◌, none, some, arith, inl, usize_add,
}
use zulu_os.Memory.{BootInfoFrameAllocator, usable_addresses, allocate_frame, nth, frame_at}
use zulu_os.Memory.Samples.{TestRegion, low_memory}
use zulu_os.Memory.Distinct.{Distinct, take_frames, take_frames-Distinct}

-- Frames 1 and 2, a reserved frame, and frame 4.
abbrev small_map : List TestRegion
small_map =
    record { first = 1; last = 3; usable = true }
    ∷ record { first = 3; last = 4; usable = false }
    ∷ record { first = 4; last = 5; usable = true }
    ∷ []

usable_runs : usable_addresses low_memory small_map ≡ 4096 ∷ 8192 ∷ 16384 ∷ []
unfolding usable_addresses
usable_runs = refl

abbrev at_count : ℕ → BootInfoFrameAllocator low_memory
at_count n = record { memory_map = small_map; next = n }

third_frame : allocate_frame low_memory true (at_count 2) ≡ some (some 16384, at_count 3)
unfolding allocate_frame usable_addresses nth frame_at usize_add
third_frame = refl

no_more : allocate_frame low_memory true (at_count 3) ≡ some (none, at_count 4)
unfolding allocate_frame usable_addresses nth frame_at usize_add
no_more = refl

first_frame : allocate_frame low_memory true (at_count 0) ≡ some (some 4096, at_count 1)
unfolding allocate_frame usable_addresses nth frame_at usize_add
first_frame = refl

take_frames-Distinct_example :
    (frames : List ℕ) × (a' : BootInfoFrameAllocator low_memory) × (take_frames low_memory true 3
        (at_count 0)
      ≡ some (frames, a'))
    × Distinct frames
    × (length frames ≡ 3)
unfolding usable_addresses
take_frames-Distinct_example =
    take_frames-Distinct low_memory true 3 (at_count 0)
      (
        ((λ u v. absurd (cc)), ((λ u v. inl (omega arith)), tt)),
        (((λ u v. absurd (cc)), tt), (tt, tt)),
      )
      (omega arith)
