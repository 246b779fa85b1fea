-- ===== src/Memory/Frames.antt =====
-- One call of `allocate_frame` of kernel/src/memory.rs.
use zulu_os.Base.{
  ℕ, zero, suc, ◌+◌, ◌-◌, ◌*◌, ◌/◌, ◌%◌, ◌^◌, ◌<◌, ◌≤◌, ◌≡◌, refl, Bool, true, false, List, [], ◌∷◌,
  ◌++◌, some, if◌then◌else◌, usize_mod, usize_add, usize_add_small, arith, get_elem?, ap, leb,
  leb→le, subst, ◌⊎◌, Bool-cases, inl, inr,
}
use zulu_os.Memory.{
  Physical, BootInfoFrameAllocator, usable_addresses, frame_at, nth, allocate_frame, step_by,
}

abbrev pub All {ℓ κ} : {A : Type ℓ} → (A → Type κ) → List A → Type κ
All Q [] = Unit
All Q (x ∷ xs) = Q x × All Q xs

pub All-append {ℓ κ} :
    {A : Type ℓ} (Q : A → Type κ) (xs ys : List A) → All Q xs → All Q ys → All Q (xs ++ ys)
All-append Q [] ys hx hy = hy
All-append Q (x ∷ xs) ys hx hy = (hx.0, All-append Q xs ys hx.1 hy)

pub All-map {ℓ κ μ} :
    {A : Type ℓ} (Q : A → Type κ) (R : A → Type μ) (xs : List A)
    → ((x : A) → Q x → R x)
    → All Q xs
    → All R xs
All-map Q R [] f h = tt
All-map Q R (x ∷ xs) f h = (f x h.0, All-map Q R xs f h.1)

pub All-if {ℓ κ} :
    {A : Type ℓ} (Q : A → Type κ) (b : Bool) (xs ys : List A)
    → (b ≡ true → All Q xs)
    → All Q ys
    → All Q (if b then xs else ys)
All-if Q true xs ys hx hy = hx refl
All-if Q false xs ys hx hy = hy

pub All-get_elem? {ℓ κ} :
    {A : Type ℓ} (Q : A → Type κ) (xs : List A) (i : ℕ) (x : A)
    → All Q xs
    → get_elem? xs i ≡ some x
    → Q x
All-get_elem? Q [] i x h e = absurd (ground arith)
All-get_elem? Q (y ∷ ys) zero x h e = let same : y ≡ x = cc in subst Q same h.0
All-get_elem? Q (y ∷ ys) (suc i) x h e = All-get_elem? Q ys i x h.1 e

pub step_by-All :
    (n start end : ℕ)
    → start % 4096 ≡ 0
    → start + n * 4096 ≤ end
    → All (λ a. (a % 4096 ≡ 0) × (start ≤ a) × (a + 4096 ≤ end)) (step_by n start)
unfolding step_by
step_by-All zero start end h k = tt
step_by-All (suc n) start end h k = (
  (h, omega arith, omega arith),
  All-map (λ (a : ℕ). (a % 4096 ≡ 0) × (start + 4096 ≤ a) × (a + 4096 ≤ end))
      (λ (a : ℕ). (a % 4096 ≡ 0) × (start ≤ a) × (a + 4096 ≤ end)) (step_by n (start + 4096))
      (λ a q. (q.0, omega arith, q.2))
      (step_by-All n (start + 4096) end (omega arith) (omega arith)),
)

module _ (P : Physical) where
  open P use {Region, start_addr, end_addr, is_usable}

  -- The frame that starts at `a` lies in a usable region.
  abbrev pub Within : List Region → ℕ → Type 0
  Within [] a = ⊥
  Within (r ∷ rs) a =
      ((is_usable r ≡ true) × (start_addr r ≤ a) × (a + 4096 ≤ end_addr r)) ⊎ Within rs a

  pub region_steps-All :
      (r : Region)
      → All
          (λ a. (a % 4096 ≡ 0) × (start_addr r ≤ a) × (a + 4096 ≤ end_addr r))
          (step_by ((end_addr r - start_addr r + 4095) / 4096) (start_addr r))
  unfolding step_by
  region_steps-All r = elim (Bool-cases (leb (start_addr r) (end_addr r))) [
    | inl some_room ↦ step_by-All _ (start_addr r) (end_addr r) (P.start_aligned r) (
        omega
          (arith, leb→le (start_addr r) (end_addr r) some_room, P.start_aligned r, P.end_aligned r))
    | inr no_room ↦
        let empty : (end_addr r - start_addr r + 4095) / 4096 ≡ 0 = ground arith in
        rw (empty, step_by) tt
  ]

  pub usable-All :
      (rs : List Region)
      → All (λ a. (a % 4096 ≡ 0) × (a < 2 ^ 52) × Within rs a) (usable_addresses P rs)
  unfolding usable_addresses
  usable-All [] = tt
  usable-All (r ∷ rs) =
      let rest : All (λ a. (a % 4096 ≡ 0) × (a < 2 ^ 52) × Within (r ∷ rs) a)
          (usable_addresses P rs) =
        All-map (λ (a : ℕ). (a % 4096 ≡ 0) × (a < 2 ^ 52) × Within rs a)
          (λ (a : ℕ). (a % 4096 ≡ 0) × (a < 2 ^ 52) × Within (r ∷ rs) a) (usable_addresses P rs)
          (λ a q. (q.0, q.1, inr q.2)) (usable-All rs) in
      All-if (λ (a : ℕ). (a % 4096 ≡ 0) × (a < 2 ^ 52) × Within (r ∷ rs) a) (is_usable r) _ _
        (λ u.
          All-append (λ (a : ℕ). (a % 4096 ≡ 0) × (a < 2 ^ 52) × Within (r ∷ rs) a) _ _
            (All-map (λ (a : ℕ). (a % 4096 ≡ 0) × (start_addr r ≤ a) × (a + 4096 ≤ end_addr r))
              (λ (a : ℕ). (a % 4096 ≡ 0) × (a < 2 ^ 52) × Within (r ∷ rs) a) _
              (λ a q. (q.0, omega (arith, q.2, P.end_bounded r), inl (u, q.1, q.2)))
              (region_steps-All r))
            rest)
        rest

  -- Looking up the `n`th frame panics on none of the addresses before it.
  nth-get_elem? :
      (xs : List ℕ) (n : ℕ)
      → All (λ a. (a % 4096 ≡ 0) × (a < 2 ^ 52)) xs
      → nth P xs n ≡ some (get_elem? xs n)
  unfolding nth frame_at
  nth-get_elem? [] n h = refl
  nth-get_elem? (a ∷ rest) zero h =
      rw (P.phys_addr_new_lem a h.0.1, P.frame_containing_lem a)
        (ap (λ k. some (some k)) (omega (arith, h.0.0)))
  nth-get_elem? (a ∷ rest) (suc n) h = rw (P.phys_addr_new_lem a h.0.1) (nth-get_elem? rest n h.1)

  -- `allocate_frame` does not panic: it gives the usable frame number `next`, or `None` past the
  -- last one, and counts on.
  pub allocate_frame_lem :
      (checks : Bool) (self : BootInfoFrameAllocator P)
      → self.next + 1 < usize_mod
      → allocate_frame P checks self
        ≡ some (
          get_elem? (usable_addresses P self.memory_map) self.next,
          record self { next = self.next + 1 },
        )
  unfolding allocate_frame
  allocate_frame_lem checks self h = rw (
    nth-get_elem? (usable_addresses P self.memory_map) self.next (
        All-map _ (λ (a : ℕ). (a % 4096 ≡ 0) × (a < 2 ^ 52)) _ (λ a q. (q.0, q.1))
          (usable-All self.memory_map)),
    usable_next,
  )
    where
      usable_next : usize_add checks self.next 1 ≡ some (self.next + 1)
      usable_next = usize_add_small checks self.next 1 h

  -- Every frame that `allocate_frame` gives is aligned, below 2 ^ 52, and inside a usable region.
  pub allocate_frame-Within :
      (checks : Bool) (self self' : BootInfoFrameAllocator P) (frame : ℕ)
      → self.next + 1 < usize_mod
      → allocate_frame P checks self ≡ some (some frame, self')
      → (frame % 4096 ≡ 0) × (frame < 2 ^ 52) × Within self.memory_map frame
  allocate_frame-Within checks self self' frame h e =
      All-get_elem? (λ (a : ℕ). (a % 4096 ≡ 0) × (a < 2 ^ 52) × Within self.memory_map a)
        (usable_addresses P self.memory_map) self.next frame (usable-All self.memory_map)
        (ground (arith, allocate_frame_lem checks self h))
