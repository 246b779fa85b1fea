-- ===== src/Mapping/Assembled.antt =====
-- The page tables of the crate `x86_64` together with the frame allocator of kernel/src/memory.rs: what the
-- rest of the kernel knows as one mapper.
use zulu_os.Base.{
  ℕ, ◌+◌, ◌-◌, ◌*◌, ◌/◌, ◌<◌, ◌≤◌, ◌≡◌, ◌≢◌, ◌⊎◌, inl, inr, refl, Bool, true, Option, none, some,
  ◌==◌, if◌then◌else◌, arith, min, length, get_elem?, get_or, get_elem?_in, usize_mod, ap, sym,
  subst,
}
use zulu_os.Paging.{Paging, present, writable, mapped}
use zulu_os.Memory.{Physical, BootInfoFrameAllocator, usable_addresses, allocate_frame}
use zulu_os.Memory.Frames.{allocate_frame_lem}
use zulu_os.Memory.Distinct.{RegionsApart, Distinct-get_elem?, usable-Distinct}
use zulu_os.Mapping.{PageMapper}

-- What one call of an allocator gives while there are frames left: a frame that it could give, and that it
-- cannot give again. `Good` is what holds of the allocator, `Gives` which frames it can still give.
abbrev pub Granted :
    {A : Type 0} → (A → ℕ) → (A → Type 0) → (A → ℕ → Type 0) → A → Option ℕ × A → Type 0
Granted left Good Gives a r =
    (frame : ℕ) × (r.0 ≡ some frame)
    × (left a ≤ left r.1 + 1)
    × Good r.1
    × Gives a frame
    × ¬ Gives r.1 frame
    × ((g : ℕ) → Gives r.1 g → Gives a g)

-- The contract of `FrameAllocator`.
abbrev pub Source :
    {A : Type 0} → (A → Option ℕ × A) → (A → ℕ) → (A → Type 0) → (A → ℕ → Type 0) → Type 0
Source {A} allocate left Good Gives =
    (a : A) → Good a → 0 < left a → Granted left Good Gives a (allocate a)

-- `OffsetPageTable`, and the memory behind its pages. `map_to` is generic in the allocator that it gets.
-- `Uses` says that a frame is a table's or a page's, and `Alone` that no table and no other page stands on
-- the frame of a page. The caller of `map_to` has to give it a frame that is not in use, and an allocator
-- of such frames. The bootloader's mapping of all physical memory, in huge pages, does not count.
pub record OffsetPageTable (P : Paging) : Type 1 where
  pub T : Type 0
  pub MapToError : Type 0
  pub frame_allocation_failed : MapToError
  pub map_to :
      {A : Type 0} → (A → Option ℕ × A) → ℕ → ℕ → P.Flags → T → A → Option MapToError × (T × A)
  pub update_flags : ℕ → P.Flags → T → Option T
  pub write_byte : ℕ → ℕ → T → Option T
  pub mapper_of : T → P.Mapper
  pub flags_of : T → ℕ → Option P.Flags
  pub byte_at : T → ℕ → ℕ
  pub Free : T → ℕ → Type 0
  pub Uses : T → ℕ → Type 0
  pub Alone : T → ℕ → Type 0
  pub map_to_lem :
      {A : Type 0} (allocate : A → Option ℕ × A) (page frame : ℕ) (flags : P.Flags) (t : T) (a : A)
      (q : ℕ)
      → (map_to allocate page frame flags t a).0 ≡ none
      → flags_of (map_to allocate page frame flags t a).1.0 q
        ≡ (if page == q then some flags else flags_of t q)
  pub map_to_none :
      {A : Type 0} (allocate : A → Option ℕ × A) (left : A → ℕ) (Good : A → Type 0)
      (Gives : A → ℕ → Type 0) (page frame : ℕ) (flags : P.Flags) (t : T) (a : A)
      → Source allocate left Good Gives
      → Good a
      → ((g : ℕ) → Gives a g → ¬ Uses t g)
      → ¬ Uses t frame
      → ¬ Gives a frame
      → Free t page
      → 3 ≤ left a
      → ((map_to allocate page frame flags t a).0 ≡ none)
        × (left a ≤ left (map_to allocate page frame flags t a).1.1 + 3)
        × Good (map_to allocate page frame flags t a).1.1
        × ((g : ℕ) → Gives (map_to allocate page frame flags t a).1.1 g → Gives a g)
        × ((g : ℕ)
            → Uses (map_to allocate page frame flags t a).1.0 g
            → Uses t g
              ⊎ ((g ≡ frame) ⊎ (Gives a g × ¬ Gives (map_to allocate page frame flags t a).1.1 g)))
        × Alone (map_to allocate page frame flags t a).1.0 page
        × ((q : ℕ) → page ≢ q → Alone t q → Alone (map_to allocate page frame flags t a).1.0 q)
        × ((q : ℕ) → page ≢ q → Free t q → Free (map_to allocate page frame flags t a).1.0 q)
  pub update_flags_lem :
      (page : ℕ) (flags old : P.Flags) (t : T)
      → flags_of t page ≡ some old
      → (t' : T) × (update_flags page flags t ≡ some t')
        × ((q : ℕ) → flags_of t' q ≡ (if page == q then some flags else flags_of t q))
        × ((q : ℕ) → Alone t q → Alone t' q)
        × ((b : ℕ) → byte_at t' b ≡ byte_at t b)
  pub write_byte_lem :
      (a v : ℕ) (flags : P.Flags) (t : T)
      → flags_of t (a / 4096 * 4096) ≡ some flags
      → P.contains flags present ≡ true
      → P.contains flags writable ≡ true
      → Alone t (a / 4096 * 4096)
      → (t' : T) × (write_byte a v t ≡ some t')
        × ((q : ℕ) → flags_of t' q ≡ flags_of t q)
        × ((q : ℕ) → Alone t q → Alone t' q)
        × ((b : ℕ) (other : P.Flags)
            → flags_of t (b / 4096 * 4096) ≡ some other
            → byte_at t' b ≡ (if a == b then v else byte_at t b))
  pub translate_lem :
      (t : T) (page : ℕ) (flags : P.Flags)
      → flags_of t page ≡ some flags
      → P.contains flags present ≡ true
      → P.translate (mapper_of t) page ≡ mapped flags

abbrev with_frames : {T A : Type 0} → Option T → A → Option (T × A)
with_frames none a = none
with_frames (some t) a = some (t, a)

module _ (F : Physical) (checks : Bool) where
  -- `allocate_frame`; its panic, when the counter overflows, gives no frame either.
  pub next_frame : BootInfoFrameAllocator F → Option ℕ × BootInfoFrameAllocator F
  next_frame a = elim (allocate_frame F checks a) [ none ↦ (none, a) | some r ↦ r ]

  -- The frames that the memory map still has, and that the counter can come to.
  abbrev pub left_in : BootInfoFrameAllocator F → ℕ
  left_in a = min (length (usable_addresses F a.memory_map) - a.next) (usize_mod - 1 - a.next)

  next_frame_lem :
      (a : BootInfoFrameAllocator F)
      → a.next + 1 < usize_mod
      → next_frame a
        ≡ (get_elem? (usable_addresses F a.memory_map) a.next, record a { next = a.next + 1 })
  unfolding next_frame
  next_frame_lem a room = rw (allocate_frame_lem F checks a room, next_frame) refl

  -- The regions do not overlap; the frames to come are the usable ones from the counter on.
  abbrev pub GoodMap : BootInfoFrameAllocator F → Type 0
  GoodMap a = RegionsApart F a.memory_map

  abbrev pub GivesIn : BootInfoFrameAllocator F → ℕ → Type 0
  GivesIn a f = (i : ℕ) × (a.next ≤ i) × (get_elem? (usable_addresses F a.memory_map) i ≡ some f)

  pub next_frame-Source : Source next_frame left_in GoodMap GivesIn
  next_frame-Source a good some_left =
      let e = next_frame_lem a (omega arith) in
      let f : ℕ = get_or (usable_addresses F a.memory_map) a.next 0 in
      let got : get_elem? (usable_addresses F a.memory_map) a.next ≡ some f =
        get_elem?_in (usable_addresses F a.memory_map) a.next 0 (omega arith) in
      let a' : BootInfoFrameAllocator F = record a { next = a.next + 1 } in
      let again : ¬ GivesIn a' f = λ (i, later, at).
        Distinct-get_elem? (usable_addresses F a.memory_map) i a.next f f
          (usable-Distinct F a.memory_map good) (omega (arith, later)) at got refl in
      let counted : left_in a ≤ left_in a' + 1 = omega arith in
      subst (Granted left_in GoodMap GivesIn a) (sym e) (
        f,
        got,
        counted,
        good,
        (a.next, omega arith, got),
        again,
        λ g (i, later, at). (i, omega (arith, later), at),
      )

  -- Both together.
  abbrev pub assembled : (P : Paging) → OffsetPageTable P → PageMapper P
  assembled P X = record {
    S = X.T × BootInfoFrameAllocator F;
    MapToError = X.MapToError;
    frame_allocation_failed = X.frame_allocation_failed;
    allocate_frame = λ s. ((next_frame s.1).0, (s.0, (next_frame s.1).1));
    map_to = λ page frame flags s. X.map_to next_frame page frame flags s.0 s.1;
    update_flags = λ page flags s. with_frames (X.update_flags page flags s.0) s.1;
    write_byte = λ b v s. with_frames (X.write_byte b v s.0) s.1;
    mapper_of = λ s. X.mapper_of s.0;
    flags_of = λ s q. X.flags_of s.0 q;
    byte_at = λ s b. X.byte_at s.0 b;
    frames_left = λ s. left_in s.1;
    Free = λ s q. X.Free s.0 q;
    Sound = λ s. GoodMap s.1 × ((g : ℕ) → GivesIn s.1 g → ¬ X.Uses s.0 g);
    Unused = λ s f. (¬ X.Uses s.0 f) × (¬ GivesIn s.1 f);
    Alone = λ s q. X.Alone s.0 q;
    allocate_frame_lem = λ s q. refl;
    allocate_frame_some = λ s h sound.
        let (f, got, less, good, could, again, mono) = next_frame-Source s.1 sound.0 h in
        (f, got, less, (good, λ g gives. sound.1 g (mono g gives)), (sound.1 f could, again));
    allocate_frame-Free = λ s q h. h;
    allocate_frame-Alone = λ s q h. h;
    map_to_lem = λ page frame flags s q h. X.map_to_lem next_frame page frame flags s.0 s.1 q h;
    map_to_none = λ page frame flags s sound unused free h.
        let (fine, less, good, mono, uses, alone, others, frees) =
          X.map_to_none next_frame left_in GoodMap GivesIn page frame flags s.0 s.1
            next_frame-Source sound.0 sound.1 unused.0 unused.1 free h in
        (
          fine,
          less,
          (
            good,
            λ g gives used. elim (uses g used) [
              | inl before ↦ sound.1 g (mono g gives) before
              | inr rest ↦ elim rest [
                | inl its ↦ unused.1 (subst (GivesIn s.1) its (mono g gives))
                | inr taken ↦ taken.1 gives
              ]
            ],
          ),
          alone,
          others,
          frees,
        );
    update_flags_lem = λ page flags old s h.
        let (t', e, f, l, b) = X.update_flags_lem page flags old s.0 h in
        ((t', s.1), ap (λ o. with_frames o s.1) e, f, l, b);
    write_byte_lem = λ a v flags s at pr wr alone.
        let (t', e, f, l, b) = X.write_byte_lem a v flags s.0 at pr wr alone in
        ((t', s.1), ap (λ o. with_frames o s.1) e, f, l, b);
    translate_lem = λ s page flags at pr. X.translate_lem s.0 page flags at pr;
  }
