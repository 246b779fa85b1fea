-- ===== src/Alloc/Disjoint.antt =====
-- The blocks that threads hold on the heap of kernel/src/allocator/bump.rs: when a list of them is
-- sound, and how that depends on its parts.
use zulu_os.Base.{ℕ, ◌+◌, ◌≤◌, ◌<◌, ◌≡◌, ◌⊎◌, inl, inr, List, [], ◌∷◌, ◌++◌, arith, usize_mod}
use zulu_os.Alloc.Align.{IsLayout, rounded, rounded_bounds}
use zulu_os.Alloc.Threads.{Status, Block, Heap}

abbrev pub end_of : Block → ℕ
end_of b = b.ptr + rounded b.layout

abbrev pub Disjoint : Block → Block → Type 0
Disjoint b c = (end_of b ≤ c.ptr) ⊎ (end_of c ≤ b.ptr)

-- `b` overlaps none of the blocks.
abbrev pub Apart : Block → List Block → Type 0
Apart b [] = Unit {0}
Apart b (c ∷ cs) = Disjoint b c × Apart b cs

abbrev pub Spread : List Block → Type 0
Spread [] = Unit {0}
Spread (b ∷ bs) = Apart b bs × Spread bs

-- The block is one that the allocator may have granted, and ends at `top` or below.
abbrev pub Inside : ℕ → ℕ → Block → Type 0
Inside low top b = IsLayout b.layout × (low ≤ b.ptr) × (end_of b ≤ top)

abbrev pub AllInside : ℕ → ℕ → List Block → Type 0
AllInside low top [] = Unit {0}
AllInside low top (b ∷ bs) = Inside low top b × AllInside low top bs

-- The blocks do not overlap, and lie between `heap_start` and `next`.
pub record IsSafe (s : Heap) : Type 0 where
  pub spread : Spread s.blocks
  pub inside : AllInside s.allocator.heap_start s.allocator.next s.blocks
  pub low : s.allocator.heap_start ≤ s.allocator.next
  pub high : s.allocator.next < usize_mod

block_pos : (b : Block) → IsLayout b.layout → 0 < rounded b.layout
block_pos b v = omega (arith, (rounded_bounds b.layout v).0, v.size_pos)

pub AllInside-mono :
    (low top top' : ℕ) (bs : List Block) → top ≤ top' → AllInside low top bs → AllInside low top' bs
AllInside-mono low top top' [] h v = tt
AllInside-mono low top top' (b ∷ bs) h v =
    ((v.0.0, v.0.1, omega arith), AllInside-mono low top top' bs h v.1)

pub above-Apart :
    (low top : ℕ) (b : Block) (bs : List Block) → b.ptr ≡ top → AllInside low top bs → Apart b bs
above-Apart low top b [] h v = tt
above-Apart low top b (c ∷ cs) h v = (inr (omega arith), above-Apart low top b cs h v.1)

pub AllInside-append :
    (low top : ℕ) (xs ys : List Block)
    → AllInside low top xs
    → AllInside low top ys
    → AllInside low top (xs ++ ys)
AllInside-append low top [] ys hx hy = hy
AllInside-append low top (x ∷ xs) ys hx hy = (hx.0, AllInside-append low top xs ys hx.1 hy)

pub AllInside-split :
    (low top : ℕ) (xs : List Block) (b : Block) (ys : List Block)
    → AllInside low top (xs ++ b ∷ ys)
    → AllInside low top xs × Inside low top b × AllInside low top ys
AllInside-split low top [] b ys h = (tt, h.0, h.1)
AllInside-split low top (x ∷ xs) b ys h =
    let (hx, hb, hy) = AllInside-split low top xs b ys h.1 in ((h.0, hx), hb, hy)

-- Taking a block out of the middle: the rest stays apart, and the block is apart from the rest.
pub Apart-split :
    (c : Block) (xs : List Block) (b : Block) (ys : List Block)
    → Apart c (xs ++ b ∷ ys)
    → Disjoint c b × Apart c (xs ++ ys)
Apart-split c [] b ys h = (h.0, h.1)
Apart-split c (x ∷ xs) b ys h = let (hb, hr) = Apart-split c xs b ys h.1 in (hb, (h.0, hr))

pub Disjoint-comm : (b c : Block) → Disjoint b c → Disjoint c b
Disjoint-comm b c (inl h) = inr h
Disjoint-comm b c (inr h) = inl h

pub Spread-split :
    (xs : List Block) (b : Block) (ys : List Block)
    → Spread (xs ++ b ∷ ys)
    → Apart b (xs ++ ys) × Spread (xs ++ ys)
Spread-split [] b ys h = (h.0, h.1)
Spread-split (x ∷ xs) b ys h =
    let (hb, hr) = Spread-split xs b ys h.1 in
    let (xb, xr) = Apart-split x xs b ys h.0 in ((Disjoint-comm x b xb, hb), (xr, hr))

-- The same places with another status.
Apart-restatus :
    (c : Block) (st : Status) (xs : List Block) (b : Block) (ys : List Block)
    → Apart c (xs ++ b ∷ ys)
    → Apart c (xs ++ record b { status = st } ∷ ys)
Apart-restatus c st [] b ys h = h
Apart-restatus c st (x ∷ xs) b ys h = (h.0, Apart-restatus c st xs b ys h.1)

pub Spread-restatus :
    (st : Status) (xs : List Block) (b : Block) (ys : List Block)
    → Spread (xs ++ b ∷ ys)
    → Spread (xs ++ record b { status = st } ∷ ys)
Spread-restatus st [] b ys h = h
Spread-restatus st (x ∷ xs) b ys h =
    (Apart-restatus x st xs b ys h.0, Spread-restatus st xs b ys h.1)

pub AllInside-restatus :
    (low top : ℕ) (st : Status) (xs : List Block) (b : Block) (ys : List Block)
    → AllInside low top (xs ++ b ∷ ys)
    → AllInside low top (xs ++ record b { status = st } ∷ ys)
AllInside-restatus low top st [] b ys h = h
AllInside-restatus low top st (x ∷ xs) b ys h = (h.0, AllInside-restatus low top st xs b ys h.1)

-- Blocks that are apart from the topmost one end where it starts.
pub below_top :
    (low : ℕ) (b : Block) (bs : List Block)
    → Apart b bs
    → AllInside low (end_of b) bs
    → AllInside low b.ptr bs
below_top low b [] ap v = tt
below_top low b (c ∷ cs) ap v =
    ((v.0.0, v.0.1, omega (arith, block_pos c v.0.0, ap.0)), below_top low b cs ap.1 v.1)
