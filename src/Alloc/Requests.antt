-- ===== src/Alloc/Requests.antt =====
-- What collections ask of the global allocator (kernel/src/allocator/bump.rs), one request after the other,
-- and `alloc_error_handler` of kernel/src/lib.rs, to which a request without an answer leads.
use zulu_os.Base.{
  ℕ, suc, ◌+◌, ◌≤◌, ◌<◌, ◌≡◌, refl, ◌∙◌, Bool, List, [], ◌∷◌, ◌++◌, Option, none, some, ◌>>=◌, ◌==◌,
  if◌then◌else◌, arith, usize_mod, length, length-append, get_elem?, get_or, get_elem?_in, inl, inr,
  Bool-cases, ltb, ◌&&◌, false, sym, subst,
}
use zulu_os.Memory.Frames.{All, All-append, All-get_elem?}
use zulu_os.Alloc.{BumpAllocator, Layout, alloc, dealloc}
use zulu_os.Alloc.Align.{IsLayout, rounded}
use zulu_os.Alloc.Serial.{alloc_lem, dealloc_store_lem}

-- A new block, or the release of the block with this number among those that were given, the first one
-- being number 0.
pub data Request : Type 0 where
  take : Layout → Request
  release : ℕ → Request

-- It panics.
unfoldable pub alloc_error_handler : {A : Type 0} → Option A
alloc_error_handler = none

unfoldable pub answered : ℕ → Option ℕ
unfolding alloc_error_handler
answered p = if p == 0 then alloc_error_handler else some p

-- The requests served, `held` being the blocks given so far.
unfoldable pub serve :
    Bool
    → List Request
    → List (ℕ × Layout)
    → BumpAllocator
    → Option (List (ℕ × Layout) × BumpAllocator)
unfolding answered
serve checks [] held a = some (held, a)
serve checks (take layout ∷ requests) held a = do
  (p, a') ← alloc checks a layout
  ptr ← answered p
  serve checks requests (held ++ (ptr, layout) ∷ []) a'
serve checks (release k ∷ requests) held a = do
  block ← get_elem? held k
  a' ← dealloc checks a block.0 block.1
  serve checks requests held a'

-- How many blocks the requests ask for, and how many bytes of the heap.
abbrev pub takes : List Request → ℕ
takes [] = 0
takes (take layout ∷ requests) = suc (takes requests)
takes (release k ∷ requests) = takes requests

abbrev pub asked : List Request → ℕ
asked [] = 0
asked (take layout ∷ requests) = rounded layout + asked requests
asked (release k ∷ requests) = asked requests

-- The layouts are valid, and only blocks that were given are released; `n` were given before.
abbrev pub AllValid : ℕ → List Request → Type 0
AllValid n [] = Unit {0}
AllValid n (take layout ∷ requests) = IsLayout layout × AllValid (suc n) requests
AllValid n (release k ∷ requests) = (k < n) × AllValid n requests

abbrev pub AllHeld : ℕ → List (ℕ × Layout) → Type 0
AllHeld low held = All (λ b. IsLayout b.1 × (low ≤ b.0) × (b.0 + rounded b.1 < usize_mod)) held

dealloc_low :
    (checks : Bool) (a : BumpAllocator) (p low : ℕ) (l : Layout)
    → IsLayout l
    → low ≤ p
    → p + rounded l < usize_mod
    → low ≤ a.next
    → (next : ℕ) × (dealloc checks a p l ≡ some (record a { next = next }))
      × (low ≤ next)
      × (next ≤ a.next)
unfolding dealloc
dealloc_low checks a p low l v at h above =
    elim (Bool-cases (p + rounded l == a.next && a.next == a.next)) [
      | inl top ↦ (p, dealloc_store_lem checks a p l a.next v h ∙ rw top refl, at, ground arith)
      | inr below ↦
          (a.next, dealloc_store_lem checks a p l a.next v h ∙ rw below refl, above, omega arith)
    ]

-- Valid requests whose blocks fit into what is left of the heap are all served, from the present
-- counter on: it never falls below `low`, if it and the blocks do not lie below at first, and rises by
-- what they ask for at most.
pub serve_lem :
    (checks : Bool) (requests : List Request) (held : List (ℕ × Layout)) (a : BumpAllocator)
    (low : ℕ)
    → AllHeld low held
    → AllValid (length held) requests
    → 0 < low
    → low ≤ a.next
    → a.next + asked requests ≤ a.heap_end
    → a.heap_end < usize_mod
    → (held' : List (ℕ × Layout)) × (next : ℕ) × (serve checks requests held a
        ≡ some (held', record a { next = next }))
      × AllHeld low held'
      × (length held' ≡ length held + takes requests)
      × (low ≤ next)
      × (next ≤ a.next + asked requests)
unfolding serve answered
serve_lem checks [] held a low ok v pos at fits top =
    (held, a.next, refl, ok, omega arith, at, omega arith)
serve_lem checks (take l ∷ requests) held a low ok v pos at fits top =
    let a1 : BumpAllocator = record a { next = a.next + rounded l } in
    let room : ltb a.heap_end a.next ≡ false = ground arith in
    let real : (a.next == 0) ≡ false = ground arith in
    let block : ℕ × Layout = (a.next, l) in
    let grown : length (held ++ block ∷ []) ≡ suc (length held) =
      length-append held (block ∷ []) ∙ omega arith in
    let (held', next, e, ok', counted, from, to) =
      serve_lem checks requests (held ++ block ∷ []) a1 low
        (All-append (λ b. IsLayout b.1 × (low ≤ b.0) × (b.0 + rounded b.1 < usize_mod)) held
          (block ∷ []) ok ((v.0, at, omega arith), tt))
        (subst (λ n. AllValid n requests) (sym grown) v.1) pos (omega arith) (omega arith) top in
    (
      held',
      next,
      rw (alloc_lem checks a l v.0 (omega arith), room, real) e,
      ok',
      omega (arith, counted, grown),
      from,
      omega (arith, to),
    )
serve_lem checks (release k ∷ requests) held a low ok v pos at fits top =
    let block : ℕ × Layout = get_or held k (0, record { size = 0; align = 0 }) in
    let got : get_elem? held k ≡ some block =
      get_elem?_in held k (0, record { size = 0; align = 0 }) v.0 in
    let (vb, above, below) =
      All-get_elem? (λ b. IsLayout b.1 × (low ≤ b.0) × (b.0 + rounded b.1 < usize_mod)) held k block
        ok got in
    let (next1, e1, low1, high1) = dealloc_low checks a block.0 low block.1 vb above below at in
    let (held', next, e, ok', counted, from, to) =
      serve_lem checks requests held (record a { next = next1 }) low ok v.1 pos low1
        (omega (arith, high1)) top in
    (held', next, rw (got, e1) e, ok', counted, from, omega (arith, to, high1))
