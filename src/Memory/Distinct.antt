-- ===== src/Memory/Distinct.antt =====
-- Calls of `allocate_frame` of kernel/src/memory.rs, one after the other.
use zulu_os.Base.{
  ℕ, zero, suc, ◌+◌, ◌-◌, ◌/◌, ◌%◌, ◌^◌, ◌<◌, ◌≤◌, ◌≡◌, ◌≢◌, ◌⊎◌, refl, Bool, true, false, List, [],
  Option, none, ◌>>=◌, length, min, Option-cases, ◌∷◌, ◌++◌, some, if◌then◌else◌, usize_mod, arith,
  get_elem?, inl, inr, ap, sym, ◌∙◌,
}
use zulu_os.Memory.{Physical, BootInfoFrameAllocator, usable_addresses, allocate_frame, step_by}
use zulu_os.Memory.Frames.{
  All, All-append, All-map, All-get_elem?, Within, region_steps-All, usable-All, allocate_frame_lem,
}

abbrev pub Distinct : List ℕ → Type 0
Distinct [] = Unit {0}
Distinct (x ∷ xs) = All (λ y. x ≢ y) xs × Distinct xs

Distinct-append :
    (xs ys : List ℕ)
    → Distinct xs
    → Distinct ys
    → All (λ x. All (λ y. x ≢ y) ys) xs
    → Distinct (xs ++ ys)
Distinct-append [] ys hx hy c = hy
Distinct-append (x ∷ xs) ys hx hy c =
    (All-append (λ (y : ℕ). x ≢ y) xs ys hx.0 c.0, Distinct-append xs ys hx.1 hy c.1)

Distinct-if :
    (b : Bool) (xs ys : List ℕ)
    → (b ≡ true → Distinct xs)
    → Distinct ys
    → Distinct (if b then xs else ys)
Distinct-if true xs ys hx hy = hx refl
Distinct-if false xs ys hx hy = hy

step_by-above : (n start b : ℕ) → b < start → All (λ y. b ≢ y) (step_by n start)
unfolding step_by
step_by-above zero start b h = tt
step_by-above (suc n) start b h = (omega arith, step_by-above n (start + 4096) b (omega arith))

Distinct-step_by : (n start : ℕ) → Distinct (step_by n start)
unfolding step_by
Distinct-step_by zero start = tt
Distinct-step_by (suc n) start =
    (step_by-above n (start + 4096) start (omega arith), Distinct-step_by n (start + 4096))

pub Distinct-get_elem? :
    (xs : List ℕ) (i j x y : ℕ)
    → Distinct xs
    → i ≢ j
    → get_elem? xs i ≡ some x
    → get_elem? xs j ≡ some y
    → x ≢ y
Distinct-get_elem? [] i j x y d ne ei ej = absurd (ground arith)
Distinct-get_elem? (z ∷ zs) zero zero x y d ne ei ej = absurd (ne refl)
Distinct-get_elem? (z ∷ zs) zero (suc j) x y d ne ei ej =
    let same : z ≡ x = cc in
    let differs : z ≢ y = All-get_elem? (λ (w : ℕ). z ≢ w) zs j y d.0 ej in λ e. differs (same ∙ e)
Distinct-get_elem? (z ∷ zs) (suc i) zero x y d ne ei ej =
    let same : z ≡ y = cc in
    let differs : z ≢ x = All-get_elem? (λ (w : ℕ). z ≢ w) zs i x d.0 ei in
    λ e. differs (same ∙ sym e)
Distinct-get_elem? (z ∷ zs) (suc i) (suc j) x y d ne ei ej =
    Distinct-get_elem? zs i j x y d.1 (λ e. ne (ap suc e)) ei ej

get_elem?-past : (xs : List ℕ) (i : ℕ) → get_elem? xs i ≡ none → length xs ≤ i
get_elem?-past [] i e = omega arith
get_elem?-past (x ∷ xs) zero e = absurd (ground arith)
get_elem?-past (x ∷ xs) (suc i) e = omega (arith, get_elem?-past xs i e)

get_elem?-inside : (xs : List ℕ) (i y : ℕ) → get_elem? xs i ≡ some y → i < length xs
get_elem?-inside [] i y e = absurd (ground arith)
get_elem?-inside (x ∷ xs) zero y e = omega arith
get_elem?-inside (x ∷ xs) (suc i) y e = omega (arith, get_elem?-inside xs i y e)

module _ (P : Physical) where
  open P use {Region, start_addr, end_addr, is_usable}

  -- The usable regions do not overlap.
  abbrev pub ApartFrom : Region → List Region → Type 0
  ApartFrom r rs =
      All
        (λ q.
          is_usable r ≡ true
          → is_usable q ≡ true
          → (end_addr r ≤ start_addr q) ⊎ (end_addr q ≤ start_addr r))
        rs

  abbrev pub RegionsApart : List Region → Type 0
  RegionsApart [] = Unit {0}
  RegionsApart (r ∷ rs) = ApartFrom r rs × RegionsApart rs

  Within-apart :
      (r : Region) (rs : List Region) (y : ℕ)
      → ApartFrom r rs
      → is_usable r ≡ true
      → Within P rs y
      → (end_addr r ≤ y) ⊎ (y + 4096 ≤ start_addr r)
  Within-apart r [] y ap u w = absurd w
  Within-apart r (q ∷ qs) y ap u (inl (uq, lo, hi)) = omega (arith, ap.0 u uq)
  Within-apart r (q ∷ qs) y ap u (inr w) = Within-apart r qs y ap.1 u w

  pub usable-Distinct : (rs : List Region) → RegionsApart rs → Distinct (usable_addresses P rs)
  unfolding usable_addresses
  usable-Distinct [] h = tt
  usable-Distinct (r ∷ rs) h =
      Distinct-if (is_usable r) _ _
        (λ u.
          Distinct-append _ (usable_addresses P rs)
            (Distinct-step_by ((end_addr r - start_addr r + 4095) / 4096) (start_addr r))
            (usable-Distinct rs h.1)
            (All-map (λ (a : ℕ). (a % 4096 ≡ 0) × (start_addr r ≤ a) × (a + 4096 ≤ end_addr r))
              (λ (x : ℕ). All (λ y. x ≢ y) (usable_addresses P rs)) _
              (λ x q.
                All-map (λ (y : ℕ). (y % 4096 ≡ 0) × (y < 2 ^ 52) × Within P rs y)
                  (λ (y : ℕ). x ≢ y) (usable_addresses P rs)
                  (λ y w. λ e. omega (arith, q.1, q.2, Within-apart r rs y h.0 u w.2))
                  (usable-All P rs))
              (region_steps-All P r)))
        (usable-Distinct rs h.1)

  pub put : Option ℕ → List ℕ → List ℕ
  put none frames = frames
  put (some f) frames = f ∷ frames

  -- Calls of `allocate_frame`, one after the other: the frames that they give.
  pub take_frames : Bool → ℕ → BootInfoFrameAllocator P → Option (List ℕ × BootInfoFrameAllocator P)
  unfolding put
  take_frames checks zero a = some ([], a)
  take_frames checks (suc n) a = do
    (given, a') ← allocate_frame P checks a
    (frames, a'') ← take_frames checks n a'
    some (put given frames, a'')

  -- `n` of the addresses from the `i`th on, as far as there are any
  pub window : List ℕ → ℕ → ℕ → List ℕ
  window xs i zero = []
  window xs i (suc n) = put (get_elem? xs i) (window xs (i + 1) n)

  window-ne :
      (xs : List ℕ) (n i j f : ℕ)
      → Distinct xs
      → j < i
      → get_elem? xs j ≡ some f
      → All (λ y. f ≢ y) (window xs i n)
  unfolding window put
  window-ne xs zero i j f d lt e = tt
  window-ne xs (suc n) i j f d lt e = elim (Option-cases (get_elem? xs i)) [
    | inl past ↦ rw past (window-ne xs n (i + 1) j f d (omega arith) e)
    | inr (y, here) ↦ rw here (
        (
          Distinct-get_elem? xs j i f y d (λ same. omega arith) e here,
          window-ne xs n (i + 1) j f d (omega arith) e,
        ))
  ]

  window-Distinct : (xs : List ℕ) (n i : ℕ) → Distinct xs → Distinct (window xs i n)
  unfolding window put
  window-Distinct xs zero i d = tt
  window-Distinct xs (suc n) i d = elim (Option-cases (get_elem? xs i)) [
    | inl past ↦ rw past (window-Distinct xs n (i + 1) d)
    | inr (y, here) ↦
        rw here ((window-ne xs n (i + 1) i y d (omega arith) here, window-Distinct xs n (i + 1) d))
  ]

  length-window : (xs : List ℕ) (n i : ℕ) → length (window xs i n) ≡ min n (length xs - i)
  unfolding window put
  length-window xs zero i = omega arith
  length-window xs (suc n) i = elim (Option-cases (get_elem? xs i)) [
    | inl past ↦ rw past (omega (arith, length-window xs n (i + 1), get_elem?-past xs i past))
    | inr (y, here) ↦
        rw here (omega (arith, length-window xs n (i + 1), get_elem?-inside xs i y here))
  ]

  take_frames-window :
      (checks : Bool) (n : ℕ) (a : BootInfoFrameAllocator P)
      → a.next + n < usize_mod
      → take_frames checks n a
        ≡ some (window (usable_addresses P a.memory_map) a.next n, record a { next = a.next + n })
  unfolding take_frames window put
  take_frames-window checks zero a h = ap (λ k. some ([], record a { next = k })) (omega arith)
  take_frames-window checks (suc n) a h =
      let a1 : BootInfoFrameAllocator P = record a { next = a.next + 1 } in
      let again : a.next + 1 + n ≡ a.next + suc n = omega arith in
      rw
        (
          allocate_frame_lem P checks a (omega arith),
          take_frames-window checks n a1 (omega arith),
          again,
        )
        refl

  -- Calls of `allocate_frame` one after the other do not panic, and no frame is given twice, where the
  -- usable regions of the memory map do not overlap and the count does not overflow. There are as
  -- many frames as calls, or as the memory map has left where those are fewer.
  pub take_frames-Distinct :
      (checks : Bool) (n : ℕ) (a : BootInfoFrameAllocator P)
      → RegionsApart a.memory_map
      → a.next + n < usize_mod
      → (frames : List ℕ) × (a' : BootInfoFrameAllocator P) × (take_frames checks n a
          ≡ some (frames, a'))
        × Distinct frames
        × (length frames ≡ min n (length (usable_addresses P a.memory_map) - a.next))
  take_frames-Distinct checks n a apart h =
      let xs : List ℕ = usable_addresses P a.memory_map in
      (
        window xs a.next n,
        record a { next = a.next + n },
        take_frames-window checks n a h,
        window-Distinct xs n a.next (usable-Distinct a.memory_map apart),
        length-window xs n a.next,
      )
