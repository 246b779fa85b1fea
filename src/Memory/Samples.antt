-- ===== src/Memory/Samples.antt =====
-- A physical memory whose regions are runs of frames: test data.
use zulu_os.Base.{
  ℕ, ◌*◌, ◌/◌, ◌%◌, ◌^◌, ◌≤◌, ◌<◌, ◌≡◌, refl, Bool, true, List, [], ◌∷◌, none, some, arith, min,
  ltb, if◌then◌else◌, length,
}
use zulu_os.Memory.{Physical, usable_addresses, step_by}

-- A region as its two frame numbers.
pub record TestRegion : Type 0 where
  pub first : ℕ
  pub last : ℕ
  pub usable : Bool

pub bounded : (n : ℕ) → min n (2 ^ 40) * 4096 ≤ 2 ^ 52
bounded n = omega arith

pub aligned : (n : ℕ) → n * 4096 % 4096 ≡ 0
aligned n = omega arith

pub physical_new : (a : ℕ) → a < 2 ^ 52 → (if ltb a (2 ^ 52) then some a else none) ≡ some a
physical_new a h = ground arith

abbrev pub low_memory : Physical
low_memory = record {
  Region = TestRegion;
  start_addr = λ r. min r.first (2 ^ 40) * 4096;
  end_addr = λ r. min r.last (2 ^ 40) * 4096;
  is_usable = λ r. r.usable;
  phys_addr_new = λ a. if ltb a (2 ^ 52) then some a else none;
  frame_containing = λ a. a / 4096 * 4096;
  start_aligned = λ r. aligned (min r.first (2 ^ 40));
  end_aligned = λ r. aligned (min r.last (2 ^ 40));
  end_bounded = λ r. bounded r.last;
  phys_addr_new_lem = physical_new;
  frame_containing_lem = λ a. refl;
}

-- 512 frames.
abbrev pub two_megabytes : List TestRegion
two_megabytes = record { first = 0x100; last = 0x300; usable = true } ∷ []

pub two_megabytes_frames : length (usable_addresses low_memory two_megabytes) ≡ 512
unfolding usable_addresses step_by
two_megabytes_frames = refl
