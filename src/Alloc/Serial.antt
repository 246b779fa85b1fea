-- ===== src/Alloc/Serial.antt =====
-- Allocation and release by one thread (kernel/src/allocator/bump.rs).
use native.Mathlib.Nat.{mod-eq_of_lt}
use zulu_os.Base.{
  ℕ, refl, ◌+◌, ◌≤◌, ◌<◌, ◌≡◌, ◌≢◌, Bool, Option, some, ◌>>=◌, arith, ltb, ◌==◌, if◌then◌else◌,
  ◌&&◌, usize_mod, usize_add_small, usize_sub_small, List, [], ◌∷◌, ap, replicate, length,
}
use zulu_os.Alloc.{
  BumpAllocator, Layout, init, alloc, dealloc, dealloc_store, compare_exchange, dealloc_target,
}
use zulu_os.Alloc.Align.{IsLayout, rounded, align_up-rounded}

-- `init` gives the allocator the heap and nothing granted.
pub init_lem :
    (checks : Bool) (a : BumpAllocator) (start size : ℕ)
    → start + size < usize_mod
    → init checks a start size
      ≡ some (record { heap_start = start; heap_end = start + size; next = start })
unfolding init
init_lem checks a start size h = rw (usize_add_small checks start size h, init) refl

-- Without a wrap, `alloc` panics in neither profile, moves `next` by the rounded size, whether or
-- not it succeeds, and returns the old `next`, or null if that lies beyond the end of the heap.
pub alloc_lem :
    (checks : Bool) (a : BumpAllocator) (l : Layout)
    → IsLayout l
    → a.next + rounded l < usize_mod
    → alloc checks a l
      ≡ some (if ltb a.heap_end a.next then 0 else a.next, record a { next = a.next + rounded l })
unfolding alloc
alloc_lem checks a l v h =
    rw (align_up-rounded checks l v, mod-eq_of_lt {n = a.next + rounded l} {m = usize_mod} h)

-- The compare-exchange of a `dealloc` that finds its block at the top takes the block off.
pub dealloc_store_lem :
    (checks : Bool) (a : BumpAllocator) (ptr : ℕ) (l : Layout) (current : ℕ)
    → IsLayout l
    → ptr + rounded l < usize_mod
    → dealloc_store checks a ptr l current
      ≡ some
          (if ptr + rounded l == current && a.next == current then record a { next = ptr } else a)
unfolding dealloc_store dealloc_target compare_exchange
dealloc_store_lem checks a ptr l current v h = ground (
  arith,
  align_up-rounded checks l v,
  usize_add_small checks ptr (rounded l) h,
  usize_sub_small checks current (rounded l),
)

-- What `alloc` granted, `dealloc` takes back: the allocator is as before. Memory is reclaimed.
pub dealloc-alloc :
    (checks : Bool) (a a' : BumpAllocator) (l : Layout) (p : ℕ)
    → IsLayout l
    → a.next + rounded l < usize_mod
    → alloc checks a l ≡ some (p, a')
    → p ≢ 0
    → dealloc checks a' p l ≡ some a
unfolding dealloc
dealloc-alloc checks a a' l p v h e ne =
    ground (arith, alloc_lem checks a l v h, dealloc_store_lem checks a' p l a'.next v)

-- A block that is not the last one granted is not reclaimed: the allocator stays as it is.
pub dealloc_below :
    (checks : Bool) (a : BumpAllocator) (l : Layout) (p : ℕ)
    → IsLayout l
    → p + rounded l < usize_mod
    → p + rounded l ≢ a.next
    → dealloc checks a p l ≡ some a
unfolding dealloc
dealloc_below checks a l p v h ne = ground (arith, dealloc_store_lem checks a p l a.next v h)

-- The test in `alloc` is on the start of the block alone: where the heap has room for the start and
-- not for the whole, `alloc` grants a block that runs over the end of the heap.
pub alloc_overrun :
    (checks : Bool) (a : BumpAllocator) (l : Layout)
    → IsLayout l
    → a.next + rounded l < usize_mod
    → 0 < a.next
    → a.next ≤ a.heap_end
    → a.heap_end < a.next + l.size
    → (p : ℕ) × (a' : BumpAllocator) × (alloc checks a l ≡ some (p, a'))
      × (p ≢ 0)
      × (a'.heap_end < p + l.size)
alloc_overrun checks a l v h pos start over = (
  a.next,
  record a { next = a.next + rounded l },
  ground (arith, alloc_lem checks a l v h),
  omega arith,
  over,
)

-- One request after the other.
pub alloc_all : Bool → BumpAllocator → List Layout → Option (List ℕ × BumpAllocator)
alloc_all checks a [] = some ([], a)
alloc_all checks a (l ∷ ls) = do
  (p, a') ← alloc checks a l
  (ps, a'') ← alloc_all checks a' ls
  some (p ∷ ps, a'')

abbrev pub AllLayouts : List Layout → Type 0
AllLayouts [] = Unit {0}
AllLayouts (l ∷ ls) = IsLayout l × AllLayouts ls

abbrev pub total : List Layout → ℕ
total [] = 0
total (l ∷ ls) = rounded l + total ls

-- Once `next` lies beyond the end of the heap, every request of a run of requests with no release
-- between them fails, however small, and still moves `next`, as long as `next` does not wrap around.
pub alloc_exhausted :
    (checks : Bool) (a : BumpAllocator) (ls : List Layout)
    → AllLayouts ls
    → a.next + total ls < usize_mod
    → a.heap_end < a.next
    → alloc_all checks a ls ≡ some (replicate (length ls) 0, record a { next = a.next + total ls })
unfolding alloc_all
alloc_exhausted checks a [] v h out = ap (λ k. some ([], record a { next = k })) (omega arith)
alloc_exhausted checks a (l ∷ ls) v h out =
    let a' : BumpAllocator = record a { next = a.next + rounded l } in
    ground (
      arith,
      alloc_lem checks a l v.0,
      alloc_exhausted checks a' ls v.1 (omega arith) (omega arith),
    )
