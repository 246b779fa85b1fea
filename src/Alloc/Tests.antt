-- ===== src/Alloc/Tests.antt =====
-- Runs and witnesses for the bump allocator (kernel/src/allocator/bump.rs).
use zulu_os.Base.{
  ℕ, ◌*◌, suc, zero, List, ◌≤◌, ◌+◌, ◌<◌, ◌≡◌, ◌≢◌, refl, Bool, true, false, [], ◌∷◌, some, arith,
  usize_add, usize_sub,
}
use zulu_os.Alloc.{
  dealloc_store, BumpAllocator, Layout, new, init, alloc, align_up, heap_start_address, heap_size,
}
use zulu_os.Alloc.Align.{IsLayout}
use zulu_os.Alloc.Serial.{alloc_overrun, alloc_all, alloc_exhausted}
use zulu_os.Alloc.Nested.{
  Nested, nothing, block, AllNested, peak, run_nested, AllBetween, run_nested_lem,
}
use zulu_os.Alloc.Threads.{Heap, Block, used, freeing, Step, Reach, here, next_step, loads}
use zulu_os.Alloc.Disjoint.{IsSafe}
use zulu_os.Alloc.Safety.{Reach-IsSafe, stores_total}

-- The kernel heap after `init`.
abbrev kernel_heap : BumpAllocator
kernel_heap = record {
  heap_start = 0x4444_4444_0000;
  heap_end = 0x4444_4445_9000;
  next = 0x4444_4444_0000;
}

init_kernel : (checks : Bool) → init checks new heap_start_address heap_size ≡ some kernel_heap
unfolding init new heap_start_address heap_size usize_add
init_kernel true = refl
init_kernel false = refl

abbrev word_layout : Layout
word_layout = record { size = 8; align = 8 }

word_layout-IsLayout : IsLayout word_layout
word_layout-IsLayout = record {
  bits = 3;
  bits_lt = omega arith;
  align_pow = refl;
  size_pos = omega arith;
  size_fits = omega arith;
}

abbrev eight : Layout
eight = record { size = 5; align = 8 }

abbrev sixteen : Layout
sixteen = record { size = 16; align = 16 }

eight-IsLayout : IsLayout eight
eight-IsLayout = record {
  bits = 3;
  bits_lt = omega arith;
  align_pow = refl;
  size_pos = omega arith;
  size_fits = omega arith;
}

sixteen-IsLayout : IsLayout sixteen
sixteen-IsLayout = record {
  bits = 4;
  bits_lt = omega arith;
  align_pow = refl;
  size_pos = omega arith;
  size_fits = omega arith;
}

align_up_runs : align_up true 5 8 ≡ some 8
unfolding align_up usize_add usize_sub
align_up_runs = refl

abbrev one_block : BumpAllocator
one_block = record kernel_heap { next = 0x4444_4444_0008 }

-- `many_boxes` of kernel/tests/heap_allocation.rs: a box of eight bytes, released, and the next one.
abbrev boxes : ℕ → Nested
boxes zero = nothing
boxes (suc n) = block word_layout nothing (boxes n)

boxes-AllNested : (n : ℕ) → AllNested (boxes n)
boxes-AllNested zero = tt
boxes-AllNested (suc n) = (word_layout-IsLayout, tt, boxes-AllNested n)

peak-boxes : (n : ℕ) → peak (boxes n) ≤ 8
peak-boxes zero = omega arith
peak-boxes (suc n) = omega (arith, peak-boxes n)

run_nested_lem_example :
    (blocks : List (ℕ × ℕ)) × (run_nested true kernel_heap (boxes (100 * 1024))
      ≡ some (blocks, kernel_heap))
    × AllBetween 0x4444_4444_0000 0x4444_4445_9000 blocks
run_nested_lem_example =
    run_nested_lem true kernel_heap (boxes (100 * 1024)) (boxes-AllNested (100 * 1024))
      (omega arith) (omega (arith, peak-boxes (100 * 1024))) (omega arith)

-- One byte of the heap is left, and five are granted.
abbrev nearly_full : BumpAllocator
nearly_full = record kernel_heap { next = 0x4444_4445_8fff }

alloc_overrun_example :
    (p : ℕ) × (a' : BumpAllocator) × (alloc true nearly_full eight ≡ some (p, a'))
    × (p ≢ 0)
    × (a'.heap_end < p + 5)
alloc_overrun_example =
    alloc_overrun true nearly_full eight eight-IsLayout (omega arith) (omega arith) (omega arith)
      (omega arith)

abbrev spent : BumpAllocator
spent = record kernel_heap { next = 0x4444_4445_9001 }

alloc_exhausted_example :
    alloc_all true spent (eight ∷ sixteen ∷ [])
    ≡ some (0 ∷ 0 ∷ [], record spent { next = 0x4444_4445_9001 + 24 })
alloc_exhausted_example =
    alloc_exhausted true spent (eight ∷ sixteen ∷ []) (eight-IsLayout, (sixteen-IsLayout, tt))
      (omega arith) (omega arith)

-- One block is held; its owner begins to free it.
abbrev held : Block
held = record { ptr = 0x4444_4444_0000; layout = eight; status = used }

abbrev held_heap : Heap
held_heap = record { allocator = one_block; blocks = held ∷ [] }

abbrev loaded : Block
loaded = record held { status = freeing 0x4444_4444_0008 }

abbrev loaded_heap : Heap
loaded_heap = record { allocator = one_block; blocks = loaded ∷ [] }

held_heap-IsSafe : IsSafe held_heap
held_heap-IsSafe = record {
  spread = (tt, tt);
  inside = ((eight-IsLayout, omega arith, omega arith), tt);
  low = omega arith;
  high = omega arith;
}

held_loads : Reach true held_heap loaded_heap
held_loads = next_step here (loads [] [] held refl refl refl)

Reach-IsSafe_example : IsSafe loaded_heap
Reach-IsSafe_example = Reach-IsSafe true held_heap loaded_heap held_heap-IsSafe held_loads

loaded_heap-IsSafe : IsSafe loaded_heap
loaded_heap-IsSafe = record {
  spread = (tt, tt);
  inside = ((eight-IsLayout, omega arith, omega arith), tt);
  low = omega arith;
  high = omega arith;
}

stores_total_example :
    (t : Heap) × (dealloc_store true loaded_heap.allocator loaded.ptr loaded.layout 0x4444_4444_0008
      ≡ some t.allocator)
    × (t.blocks ≡ [])
    × (t.allocator.next ≡ 0x4444_4444_0000)
    × Step true loaded_heap t
    × IsSafe t
stores_total_example =
    stores_total true loaded_heap [] [] loaded 0x4444_4444_0008 loaded_heap-IsSafe refl refl
