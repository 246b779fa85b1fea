-- ===== src/Alloc/Threads.antt =====
-- The bump allocator shared by threads (kernel/src/allocator/bump.rs). A thread that calls
-- `dealloc` gives its block up, loads `next`, and stores later; the steps of other threads come
-- in between. `heap_end` is never written after `init`, so the load of it in `alloc` needs no
-- step of its own.
use zulu_os.Base.{ℕ, ◌+◌, ◌<◌, ◌≡◌, Bool, List, ◌∷◌, ◌++◌, some, usize_mod, ◌==◌, if◌then◌else◌}
use zulu_os.Alloc.{BumpAllocator, Layout, alloc, dealloc_store}
use zulu_os.Alloc.Align.{IsLayout, rounded}

-- A block that a thread uses, or one that is being freed, with the `next` that `dealloc` loaded.
pub data Status : Type 0 where
  used : Status
  freeing : ℕ → Status

pub record Block : Type 0 where
  pub ptr : ℕ
  pub layout : Layout
  pub status : Status

pub record Heap : Type 0 where
  pub allocator : BumpAllocator
  pub blocks : List Block

abbrev pub granted : ℕ → Layout → List Block → List Block
granted p l bs = if p == 0 then bs else record { ptr = p; layout = l; status = used } ∷ bs

-- One atomic step of some thread. The requests so far must not have wrapped the counter.
pub data Step (checks : Bool) (s t : Heap) : Type 0 where
  allocates :
      (l : Layout) (p : ℕ) (a : BumpAllocator)
      → IsLayout l
      → s.allocator.next + rounded l < usize_mod
      → alloc checks s.allocator l ≡ some (p, a)
      → t ≡ record { allocator = a; blocks = granted p l s.blocks }
      → Step checks s t
  loads :
      (before after : List Block) (b : Block)
      → s.blocks ≡ before ++ b ∷ after
      → b.status ≡ used
      → t ≡ record s { blocks = before ++ record b { status = freeing s.allocator.next } ∷ after }
      → Step checks s t
  stores :
      (before after : List Block) (b : Block) (current : ℕ) (a : BumpAllocator)
      → s.blocks ≡ before ++ b ∷ after
      → b.status ≡ freeing current
      → dealloc_store checks s.allocator b.ptr b.layout current ≡ some a
      → t ≡ record { allocator = a; blocks = before ++ after }
      → Step checks s t

pub data Reach (checks : Bool) (s : Heap) : Heap → Type 0 where
  here : Reach checks s s
  next_step : {t u : Heap} → Reach checks s t → Step checks t u → Reach checks s u
