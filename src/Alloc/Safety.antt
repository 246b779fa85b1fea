-- ===== src/Alloc/Safety.antt =====
-- The invariant of the steps of `Alloc.Threads` (kernel/src/allocator/bump.rs).
use zulu_os.Base.{
  ℕ, ◌+◌, ◌≤◌, ◌<◌, ◌≡◌, ◌⊎◌, inl, inr, refl, Bool, List, ◌∷◌, ◌++◌, some, arith, usize_mod, ◌==◌,
  if◌then◌else◌, ◌&&◌, Bool-cases, subst,
}
use zulu_os.Alloc.{BumpAllocator, Layout, alloc, dealloc_store}
use zulu_os.Alloc.Align.{IsLayout, rounded}
use zulu_os.Alloc.Serial.{alloc_lem, dealloc_store_lem}
use zulu_os.Alloc.Threads.{
  Status, used, freeing, Block, Heap, granted, Step, allocates, loads, stores, Reach, here,
  next_step,
}
use zulu_os.Alloc.Disjoint.{
  end_of, Spread, AllInside, IsSafe, AllInside-mono, above-Apart, AllInside-append, AllInside-split,
  Spread-split, Spread-restatus, AllInside-restatus, below_top,
}

granted-safe :
    (low top p : ℕ) (l : Layout) (bs : List Block)
    → IsLayout l
    → low ≤ top
    → (p ≡ 0) ⊎ (p ≡ top)
    → Spread bs
    → AllInside low top bs
    → Spread (granted p l bs) × AllInside low (top + rounded l) (granted p l bs)
granted-safe low top p l bs v lt q sp ins = elim (Bool-cases (p == 0)) [
  | inl null ↦ rw null (sp, AllInside-mono low top (top + rounded l) bs (omega arith) ins)
  | inr real ↦
      let at_top : p ≡ top = ground arith in
      rw real (
        (above-Apart low top (record { ptr = p; layout = l; status = used }) bs at_top ins, sp),
        (
          (v, omega arith, omega arith),
          AllInside-mono low top (top + rounded l) bs (omega arith) ins,
        ),
      )
]

alloc_facts :
    (checks : Bool) (a : BumpAllocator) (l : Layout) (p : ℕ) (a' : BumpAllocator)
    → IsLayout l
    → a.next + rounded l < usize_mod
    → alloc checks a l ≡ some (p, a')
    → (a' ≡ record a { next = a.next + rounded l }) × ((p ≡ 0) ⊎ (p ≡ a.next))
alloc_facts checks a l p a' v h e =
    (ground (arith, alloc_lem checks a l v h), ground (arith, alloc_lem checks a l v h))

allocates-IsSafe :
    (checks : Bool) (s : Heap) (l : Layout) (p : ℕ) (a : BumpAllocator)
    → IsLayout l
    → s.allocator.next + rounded l < usize_mod
    → alloc checks s.allocator l ≡ some (p, a)
    → IsSafe s
    → IsSafe (record { allocator = a; blocks = granted p l s.blocks })
allocates-IsSafe checks s l p a v h e safe =
    let (ea, ep) = alloc_facts checks s.allocator l p a v h e in
    let (sp, ins) =
      granted-safe s.allocator.heap_start s.allocator.next p l s.blocks v safe.low ep safe.spread
        safe.inside in
    rw ea (record { spread = sp; inside = ins; low = omega (arith, safe.low); high = h })

loads-IsSafe :
    (s : Heap) (st : Status) (before after : List Block) (b : Block)
    → s.blocks ≡ before ++ b ∷ after
    → IsSafe s
    → IsSafe (record s { blocks = before ++ record b { status = st } ∷ after })
loads-IsSafe s st before after b e safe = record {
  spread = Spread-restatus st before b after (subst Spread e safe.spread);
  inside =
      AllInside-restatus s.allocator.heap_start s.allocator.next st before b after
        (subst (AllInside s.allocator.heap_start s.allocator.next) e safe.inside);
  low = safe.low;
  high = safe.high;
}

stores-IsSafe :
    (checks : Bool) (s : Heap) (before after : List Block) (b : Block) (current : ℕ)
    (a : BumpAllocator)
    → s.blocks ≡ before ++ b ∷ after
    → dealloc_store checks s.allocator b.ptr b.layout current ≡ some a
    → IsSafe s
    → IsSafe (record { allocator = a; blocks = before ++ after })
stores-IsSafe checks s before after b current a e st safe =
    let low : ℕ = s.allocator.heap_start in
    let top : ℕ = s.allocator.next in
    let (apart, spread) = Spread-split before b after (subst Spread e safe.spread) in
    let (ins1, insb, ins2) =
      AllInside-split low top before b after (subst (AllInside low top) e safe.inside) in
    let ins : AllInside low top (before ++ after) =
      AllInside-append low top before after ins1 ins2 in
    let now : a ≡ (
        if end_of b == current && top == current
        then record s.allocator { next = b.ptr }
        else s.allocator) =
      ground (
        arith,
        dealloc_store_lem checks s.allocator b.ptr b.layout current insb.0
            (omega (arith, insb.2, safe.high)),
      ) in
    elim (Bool-cases (end_of b == current && top == current)) [
      | inl hit ↦
          let at_top : top ≡ end_of b = ground arith in
          rw (now, hit)
            (record {
              spread = spread;
              inside =
                  below_top low b (before ++ after) apart
                    (subst (λ k. AllInside low k (before ++ after)) at_top ins);
              low = insb.1;
              high = omega (arith, insb.2, safe.high);
            })
      | inr miss ↦
          rw (now, miss)
            (record { spread = spread; inside = ins; low = safe.low; high = safe.high })
    ]

-- Every step of every thread keeps the blocks apart and inside.
pub Step-IsSafe : (checks : Bool) (s t : Heap) → Step checks s t → IsSafe s → IsSafe t
Step-IsSafe checks s t (allocates l p a v h e et) safe =
    rw et (allocates-IsSafe checks s l p a v h e safe)
Step-IsSafe checks s t (loads before after b e u et) safe =
    rw et (loads-IsSafe s (freeing s.allocator.next) before after b e safe)
Step-IsSafe checks s t (stores before after b current a e u st et) safe =
    rw et (stores-IsSafe checks s before after b current a e st safe)

-- Whatever the interleaving of allocations and of the two steps of each release, the blocks held at
-- any moment do not overlap and lie between the start of the heap and `next`, if they did at first,
-- as long as the counter `next` does not wrap around.
pub Reach-IsSafe : (checks : Bool) (s t : Heap) → IsSafe s → Reach checks s t → IsSafe t
Reach-IsSafe checks s t safe here = safe
Reach-IsSafe checks s t safe (next_step {t = m} r st) =
    Step-IsSafe checks m t st (Reach-IsSafe checks s m safe r)

-- A `dealloc` that has loaded `next` can always finish: in a safe state its second step panics in
-- neither profile, whatever other threads did in between. The step releases this very block: the others
-- stay as they are, and `next` goes back to the block's start if the block ended at the loaded count and
-- the count is still that one, and stays otherwise. The state is safe again.
pub stores_total :
    (checks : Bool) (s : Heap) (before after : List Block) (b : Block) (current : ℕ)
    → IsSafe s
    → s.blocks ≡ before ++ b ∷ after
    → b.status ≡ freeing current
    → (t : Heap) × (dealloc_store checks s.allocator b.ptr b.layout current ≡ some t.allocator)
      × (t.blocks ≡ before ++ after)
      × (t.allocator.next ≡ (
          if end_of b == current && s.allocator.next == current then b.ptr else s.allocator.next))
      × Step checks s t
      × IsSafe t
stores_total checks s before after b current safe e u =
    let (ins1, insb, ins2) =
      AllInside-split s.allocator.heap_start s.allocator.next before b after
        (subst (AllInside s.allocator.heap_start s.allocator.next) e safe.inside) in
    let a : BumpAllocator =
      if end_of b == current && s.allocator.next == current
      then record s.allocator { next = b.ptr }
      else s.allocator in
    let stored : dealloc_store checks s.allocator b.ptr b.layout current ≡ some a =
      dealloc_store_lem checks s.allocator b.ptr b.layout current insb.0
        (omega (arith, insb.2, safe.high)) in
    (
      record { allocator = a; blocks = before ++ after },
      stored,
      refl,
      ground arith,
      stores before after b current a e u stored refl,
      stores-IsSafe checks s before after b current a e stored safe,
    )
