-- ===== src/Alloc/Nested.antt =====
-- Blocks that are released in the opposite order of their requests, as the boxes of nested scopes are
-- (kernel/src/allocator/bump.rs).
use zulu_os.Base.{
  ℕ, ◌+◌, ◌≤◌, ◌<◌, ◌≡◌, refl, Bool, List, [], ◌∷◌, ◌++◌, Option, none, some, ◌>>=◌, arith, ◌==◌,
  if◌then◌else◌, usize_mod, max, false,
}
use zulu_os.Alloc.{BumpAllocator, Layout, alloc, dealloc}
use zulu_os.Alloc.Align.{IsLayout, rounded, rounded_bounds}
use zulu_os.Alloc.Serial.{alloc_lem, dealloc-alloc}

-- A block, what is requested and released while it is held, and what comes after its release.
pub data Nested : Type 0 where
  nothing : Nested
  block : Layout → Nested → Nested → Nested

abbrev pub AllNested : Nested → Type 0
AllNested nothing = Unit {0}
AllNested (block l inside after) = IsLayout l × AllNested inside × AllNested after

-- The most that is held at a time.
abbrev pub peak : Nested → ℕ
peak nothing = 0
peak (block l inside after) = max (rounded l + peak inside) (peak after)

-- The blocks granted, by start and size, and the allocator in the end. A null pointer ends in
-- `alloc_error_handler`, which panics.
pub run_nested : Bool → BumpAllocator → Nested → Option (List (ℕ × ℕ) × BumpAllocator)
run_nested checks a nothing = some ([], a)
run_nested checks a (block l inside after) = do
  (p, a1) ← alloc checks a l
  _ ← (if p == 0 then none else some p)
  (held, a2) ← run_nested checks a1 inside
  a3 ← dealloc checks a2 p l
  (later, a4) ← run_nested checks a3 after
  some ((p, l.size) ∷ held ++ later, a4)

-- Every block lies between the bounds.
abbrev pub AllBetween : ℕ → ℕ → List (ℕ × ℕ) → Type 0
AllBetween low high [] = Unit {0}
AllBetween low high ((p, size) ∷ blocks) =
    (low ≤ p) × (p + size ≤ high) × AllBetween low high blocks

AllBetween-append :
    (low high : ℕ) (xs ys : List (ℕ × ℕ))
    → AllBetween low high xs
    → AllBetween low high ys
    → AllBetween low high (xs ++ ys)
AllBetween-append low high [] ys bx by_ = by_
AllBetween-append low high ((p, size) ∷ xs) ys bx by_ =
    (bx.0, bx.1, AllBetween-append low high xs ys bx.2 by_)

AllBetween-wider :
    (low low' high : ℕ) (xs : List (ℕ × ℕ))
    → low ≤ low'
    → AllBetween low' high xs
    → AllBetween low high xs
AllBetween-wider low low' high [] h b = tt
AllBetween-wider low low' high ((p, size) ∷ xs) h b =
    (omega (arith, b.0), b.1, AllBetween-wider low low' high xs h b.2)

-- However many blocks there are: where the most that is held at a time fits into the rest of the heap,
-- every request is granted, every block lies in the rest of the heap, and in the end the allocator is as it
-- was. Memory is reclaimed.
pub run_nested_lem :
    (checks : Bool) (a : BumpAllocator) (n : Nested)
    → AllNested n
    → 0 < a.next
    → a.next + peak n ≤ a.heap_end
    → a.heap_end < usize_mod
    → (blocks : List (ℕ × ℕ)) × (run_nested checks a n ≡ some (blocks, a))
      × AllBetween a.next a.heap_end blocks
unfolding run_nested
run_nested_lem checks a nothing ok pos fits top = ([], refl, tt)
run_nested_lem checks a (block l inside after) ok pos fits top =
    let a1 : BumpAllocator = record a { next = a.next + rounded l } in
    let granted : alloc checks a l ≡ some (a.next, a1) =
      ground (arith, alloc_lem checks a l ok.0) in
    let released : dealloc checks a1 a.next l ≡ some a =
      dealloc-alloc checks a a1 l a.next ok.0 (omega arith) granted (omega arith) in
    let (held, e1, b1) = run_nested_lem checks a1 inside ok.1 (omega arith) (omega arith) top in
    let (later, e2, b2) = run_nested_lem checks a after ok.2 pos (omega arith) top in
    let there : (a.next == 0) ≡ false = ground arith in
    (
      (a.next, l.size) ∷ held ++ later,
      rw (granted, there, e1, released, e2) refl,
      (
        omega arith,
        omega (arith, (rounded_bounds l ok.0).0),
        AllBetween-append a.next a.heap_end held later
            (AllBetween-wider a.next (a.next + rounded l) a.heap_end held (omega arith) b1) b2,
      ),
    )
