-- ===== src/Alloc/Align.antt =====
-- `align_up` of kernel/src/allocator/mod.rs as arithmetic.
use native.Mathlib.Nat.{one-le-pow, lt-div-mul-add, div-mul-le_self, mul-mod_left}
use zulu_os.Base.{
  ℕ, ◌+◌, ◌-◌, ◌*◌, ◌/◌, ◌%◌, ◌^◌, ◌≤◌, ◌<◌, ◌≡◌, Bool, some, arith, bit_and, usize_mod, isize_max,
  usize_add, usize_sub, usize_add_small, usize_sub_small, refl, ap, ◌∙◌,
}
use zulu_os.Base.Bits.{bit_and-high}
use zulu_os.Alloc.{Layout, align_up}

-- What `Layout` and `GlobalAlloc` promise: the alignment is a power of two, the size is not zero,
-- and rounded up to the alignment it does not exceed `isize::MAX`.
pub record IsLayout (l : Layout) : Type 0 where
  pub bits : ℕ
  pub bits_lt : bits < 63
  pub align_pow : l.align ≡ 2 ^ bits
  pub size_pos : 0 < l.size
  pub size_fits : l.size + l.align ≤ isize_max + 1

-- The size that a block takes on the heap.
abbrev pub rounded : Layout → ℕ
rounded l = (l.size + l.align - 1) / l.align * l.align

align_pos : (l : Layout) → IsLayout l → 0 < l.align
align_pos l v = omega (arith, v.align_pow, one-le-pow v.bits 2)

-- `align_up` of a valid layout overflows in neither profile, and gives the size rounded up.
pub align_up-rounded :
    (checks : Bool) (l : Layout) → IsLayout l → align_up checks l.size l.align ≡ some (rounded l)
unfolding align_up
align_up-rounded checks l v =
    let low : l.align ≤ 2 ^ 63 = omega (arith, v.size_fits, v.size_pos) in
    let e1 : usize_add checks l.size l.align ≡ some (l.size + l.align) =
      usize_add_small checks l.size l.align (omega (arith, v.size_fits)) in
    let e2 : usize_sub checks (l.size + l.align) 1 ≡ some (l.size + l.align - 1) =
      usize_sub_small checks (l.size + l.align) 1 (omega arith) (omega (arith, v.size_fits)) in
    let e3 : usize_sub checks l.align 1 ≡ some (l.align - 1) =
      usize_sub_small checks l.align 1 pos (omega arith) in
    rw (e1, e2, e3) (ap some (ap (bit_and (l.size + l.align - 1)) mask ∙ high ∙ scale))
  where
    pos : 0 < l.align
    pos = align_pos l v

    mask : usize_mod - 1 - (l.align - 1) ≡ 2 ^ 64 - 2 ^ v.bits
    mask = omega (arith, pos, v.align_pow)

    high :
        bit_and (l.size + l.align - 1) (2 ^ 64 - 2 ^ v.bits)
        ≡ (l.size + l.align - 1) / 2 ^ v.bits * 2 ^ v.bits
    high =
        bit_and-high v.bits 64 (l.size + l.align - 1) (omega (arith, v.bits_lt))
          (omega (arith, v.size_fits))

    scale : (l.size + l.align - 1) / 2 ^ v.bits * 2 ^ v.bits ≡ rounded l
    scale = rw v.align_pow refl

-- The rounded size is the least multiple of the alignment that is not below the size.
pub rounded_bounds :
    (l : Layout)
    → IsLayout l
    → (l.size ≤ rounded l) × (rounded l < l.size + l.align) × (rounded l % l.align ≡ 0)
rounded_bounds l v =
    let pos : 0 < l.align = align_pos l v in
    (
      omega (arith, pos, lt-div-mul-add {a = l.size + l.align - 1} pos),
      omega (arith, pos, div-mul-le_self (l.size + l.align - 1) l.align),
      mul-mod_left ((l.size + l.align - 1) / l.align) l.align,
    )
