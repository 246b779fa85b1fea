-- ===== src/Mapping/Framed.antt =====
-- Page tables over a memory of frames, where two pages on one frame have the same bytes: test data.
use zulu_os.Base.{
  ℕ, ◌*◌, ◌/◌, ◌%◌, ◌≡◌, ◌≢◌, ◌⊎◌, inl, inr, refl, Bool, true, Option, none, some, ◌==◌, ◌&&◌,
  if◌then◌else◌, arith, Bool-cases, false, ap, sym, subst,
}
use zulu_os.Paging.{Flag, present, writable}
use zulu_os.Syscall.Samples.{machine}
use zulu_os.Mapping.Samples.{room_kept, translation, translation_lem}
use zulu_os.Mapping.Assembled.{OffsetPageTable}

-- The flags and the frame of a page, and the bytes of a frame.
pub record Framed : Type 0 where
  pub flags : ℕ → Option (Flag → Bool)
  pub frame : ℕ → ℕ
  pub memory : ℕ → ℕ → ℕ

abbrev pub on_frame : ℕ → ℕ → (Flag → Bool) → Framed → Framed
on_frame page f flags t = record t {
  flags = λ q. if page == q then some flags else t.flags q;
  frame = λ q. if page == q then f else t.frame q;
}

unfoldable pub change : Option (Flag → Bool) → ℕ → (Flag → Bool) → Framed → Option Framed
change none page flags t = none
change (some old) page flags t =
    some (record t { flags = λ q. if page == q then some flags else t.flags q })

abbrev pub stored : ℕ → ℕ → Framed → Framed
stored a v t = record t {
  memory = λ f i. if f == t.frame (a / 4096 * 4096) && i == a % 4096 then v else t.memory f i;
}

unfoldable pub put_in : Option (Flag → Bool) → ℕ → ℕ → Framed → Option Framed
put_in none a v t = none
put_in (some flags) a v t = some (stored a v t)

abbrev pub its_byte : Framed → ℕ → ℕ
its_byte t b = t.memory (t.frame (b / 4096 * 4096)) (b % 4096)

abbrev pub Taken : Framed → ℕ → Type 0
Taken t g = (p : ℕ) × (o : Flag → Bool) × (t.flags p ≡ some o) × (t.frame p ≡ g)

-- Mapped, and on a frame that no other mapped page has.
pub record IsAlone (t : Framed) (q : ℕ) : Type 0 where
  pub its : Flag → Bool
  pub mapped : t.flags q ≡ some its
  pub apart : (p : ℕ) (o : Flag → Bool) → t.flags p ≡ some o → p ≢ q → t.frame p ≢ t.frame q

pub Taken-on_frame :
    (page f : ℕ) (flags : Flag → Bool) (t : Framed) (g : ℕ)
    → Taken (on_frame page f flags t) g
    → Taken t g ⊎ (g ≡ f)
Taken-on_frame page f flags t g (p, o, h, e) = elim (Bool-cases (page == p)) [
  | inl here ↦ inr (ground arith)
  | inr other ↦ inl (p, o, ground arith, ground arith)
]

pub on_frame-IsAlone :
    (page f : ℕ) (flags : Flag → Bool) (t : Framed)
    → ¬ Taken t f
    → IsAlone (on_frame page f flags t) page
on_frame-IsAlone page f flags t unused = record {
  its = flags;
  mapped = ground arith;
  apart = λ p o h ne same. unused (p, o, ground arith, ground arith);
}

pub IsAlone-kept :
    (page f : ℕ) (flags : Flag → Bool) (t : Framed) (q : ℕ)
    → ¬ Taken t f
    → page ≢ q
    → IsAlone t q
    → IsAlone (on_frame page f flags t) q
IsAlone-kept page f flags t q unused ne alone = record {
  its = alone.its;
  mapped = ground (arith, alone.mapped);
  apart = λ p o h off same. elim (Bool-cases (page == p)) [
    | inl here ↦ unused (q, alone.its, alone.mapped, ground arith)
    | inr other ↦ alone.apart p o (ground arith) off (ground arith)
  ];
}

pub if_free :
    (page : ℕ) (flags : Flag → Bool) (t : Framed) (q : ℕ)
    → page ≢ q
    → t.flags q ≡ none
    → (if page == q then some flags else t.flags q) ≡ none
if_free page flags t q ne h = ground arith

pub change_lem :
    (page : ℕ) (flags old : Flag → Bool) (t : Framed)
    → t.flags page ≡ some old
    → (t' : Framed) × (change (t.flags page) page flags t ≡ some t')
      × ((q : ℕ) → t'.flags q ≡ (if page == q then some flags else t.flags q))
      × ((q : ℕ) → IsAlone t q → IsAlone t' q)
      × ((b : ℕ) → its_byte t' b ≡ its_byte t b)
unfolding change
change_lem page flags old t e = (
  record t { flags = λ q. if page == q then some flags else t.flags q },
  rw (e, change) refl,
  λ q. refl,
  λ q alone. elim (Bool-cases (page == q)) [
    | inl here ↦ record {
      its = flags;
      mapped = ground arith;
      apart = λ p o h off. alone.apart p o (ground arith) off;
    }
    | inr other ↦ record {
      its = alone.its;
      mapped = ground (arith, alone.mapped);
      apart = λ p o h off. elim (Bool-cases (page == p)) [
        | inl at ↦ alone.apart p old (ground arith) off
        | inr elsewhere ↦ alone.apart p o (ground arith) off
      ];
    }
  ],
  λ b. refl,
)

at_page :
    (a v : ℕ) (t : Framed) (b : ℕ)
    → a / 4096 * 4096 ≡ b / 4096 * 4096
    → its_byte (stored a v t) b ≡ (if a == b then v else its_byte t b)
at_page a v t b here = elim (Bool-cases (a == b)) [
  | inl at ↦
      let same : a ≡ b = ground arith in
      let first : its_byte (stored a v t) a ≡ (if a == a then v else its_byte t a) = ground arith in
      subst (λ x. its_byte (stored a v t) x ≡ (if a == x then v else its_byte t x)) same first
  | inr off ↦ let apart : (b % 4096 == a % 4096) ≡ false = ground arith in ground (arith, apart)
]

elsewhere :
    (a v : ℕ) (t : Framed) (b : ℕ)
    → t.frame (b / 4096 * 4096) ≢ t.frame (a / 4096 * 4096)
    → its_byte (stored a v t) b ≡ (if a == b then v else its_byte t b)
elsewhere a v t b differs =
    let ne : a ≢ b = λ e. differs (ap (λ x. t.frame (x / 4096 * 4096)) (sym e)) in
    let off : (t.frame (b / 4096 * 4096) == t.frame (a / 4096 * 4096)) ≡ false = ground arith in
    ground (arith, off, ne)

pub put_in_lem :
    (a v : ℕ) (flags : Flag → Bool) (t : Framed)
    → t.flags (a / 4096 * 4096) ≡ some flags
    → flags present ≡ true
    → flags writable ≡ true
    → IsAlone t (a / 4096 * 4096)
    → (t' : Framed) × (put_in (t.flags (a / 4096 * 4096)) a v t ≡ some t')
      × ((q : ℕ) → t'.flags q ≡ t.flags q)
      × ((q : ℕ) → IsAlone t q → IsAlone t' q)
      × ((b : ℕ) (other : Flag → Bool)
          → t.flags (b / 4096 * 4096) ≡ some other
          → its_byte t' b ≡ (if a == b then v else its_byte t b))
unfolding put_in
put_in_lem a v flags t e pr wr alone = (
  stored a v t,
  rw (e, put_in) refl,
  λ q. refl,
  λ q own. record { its = own.its; mapped = own.mapped; apart = own.apart },
  λ b other h. elim (Bool-cases (a / 4096 * 4096 == b / 4096 * 4096)) [
    | inl here ↦ at_page a v t b (ground arith)
    | inr off ↦ elsewhere a v t b (alone.apart (b / 4096 * 4096) other h (ground arith))
  ],
)

abbrev pub empty_framed : Framed
empty_framed = record { flags = λ q. none; frame = λ q. 0; memory = λ f i. 0 }

abbrev pub framed_pages : OffsetPageTable machine
framed_pages = record {
  T = Framed;
  MapToError = ℕ;
  frame_allocation_failed = 0;
  map_to = λ allocate page frame flags t a. (none, (on_frame page frame flags t, a));
  update_flags = λ page flags t. change (t.flags page) page flags t;
  write_byte = λ a v t. put_in (t.flags (a / 4096 * 4096)) a v t;
  mapper_of = λ t q. translation (t.flags q);
  flags_of = λ t q. t.flags q;
  byte_at = its_byte;
  Free = λ t q. t.flags q ≡ none;
  Uses = Taken;
  Alone = IsAlone;
  map_to_lem = λ allocate page frame flags t a q h. refl;
  map_to_none =
      λ allocate left Good Gives page frame flags t a source good off unused kept free room. (
        refl,
        room_kept (left a),
        good,
        λ g h. h,
        λ g u. elim (Taken-on_frame page frame flags t g u) [
          | inl before ↦ inl before
          | inr its ↦ inr (inl its)
        ],
        on_frame-IsAlone page frame flags t unused,
        λ q ne u. IsAlone-kept page frame flags t q unused ne u,
        λ q ne h. if_free page flags t q ne h,
      );
  update_flags_lem = λ page flags old t h. change_lem page flags old t h;
  write_byte_lem = λ a v flags t e p w u. put_in_lem a v flags t e p w u;
  translate_lem = λ t page flags e p. translation_lem (t.flags page) flags e;
}
