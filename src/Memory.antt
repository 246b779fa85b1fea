-- ===== src/Memory.antt =====
-- `BootInfoFrameAllocator` of kernel/src/memory.rs: frames from the bootloader's memory map.
-- A panic is `none`.
pub mod Frames
pub mod Distinct
pub mod Samples
mod Tests
use zulu_os.Base.{
  ℕ, zero, suc, ◌+◌, ◌-◌, ◌*◌, ◌/◌, ◌%◌, ◌^◌, ◌<◌, ◌≤◌, ◌≡◌, Bool, true, List, [], ◌∷◌, ◌++◌,
  Option, none, some, ◌>>=◌, if◌then◌else◌, usize_add,
}

-- What the kernel takes from the crates `bootloader` and `x86_64`: a region of the memory map is a
-- range of whole frames below 2 ^ 52; `PhysAddr::new` panics on addresses from there on; a frame is
-- named by the address where it starts.
pub record Physical : Type 1 where
  pub Region : Type 0
  pub start_addr : Region → ℕ
  pub end_addr : Region → ℕ
  pub is_usable : Region → Bool
  pub phys_addr_new : ℕ → Option ℕ
  pub frame_containing : ℕ → ℕ
  pub start_aligned : (r : Region) → start_addr r % 4096 ≡ 0
  pub end_aligned : (r : Region) → end_addr r % 4096 ≡ 0
  pub end_bounded : (r : Region) → end_addr r ≤ 2 ^ 52
  pub phys_addr_new_lem : (a : ℕ) → a < 2 ^ 52 → phys_addr_new a ≡ some a
  pub frame_containing_lem : (a : ℕ) → frame_containing a ≡ a / 4096 * 4096

-- `(start..end).step_by(4096)`, as the `n` addresses from `start` on
unfoldable pub step_by : ℕ → ℕ → List ℕ
step_by zero start = []
step_by (suc n) start = start ∷ step_by n (start + 4096)

module _ (P : Physical) where
  open P use {Region, start_addr, end_addr, is_usable, phys_addr_new, frame_containing}

  pub record BootInfoFrameAllocator : Type 0 where
    pub memory_map : List Region
    pub next : ℕ

  unfoldable pub init : List Region → BootInfoFrameAllocator
  init memory_map = record { memory_map = memory_map; next = 0 }

  -- the addresses of `usable_frames`: the usable regions, each in steps of a frame
  pub usable_addresses : List Region → List ℕ
  unfolding step_by
  usable_addresses [] = []
  usable_addresses (r ∷ rs) =
      if is_usable r
      then step_by ((end_addr r - start_addr r + 4095) / 4096) (start_addr r) ++ usable_addresses rs
      else usable_addresses rs

  -- the closure of `usable_frames`
  pub frame_at : ℕ → Option ℕ
  frame_at address = do phys ← phys_addr_new address; some (frame_containing phys)

  -- `nth` runs the closure on each address up to the one it stops at.
  pub nth : List ℕ → ℕ → Option (Option ℕ)
  nth [] n = some none
  nth (address ∷ rest) zero = do frame ← frame_at address; some (some frame)
  nth (address ∷ rest) (suc n) = do frame ← frame_at address; nth rest n

  pub allocate_frame : Bool → BootInfoFrameAllocator → Option (Option ℕ × BootInfoFrameAllocator)
  allocate_frame checks self = do
    frame ← nth (usable_addresses self.memory_map) self.next
    next ← usize_add checks self.next 1
    some (frame, record self { next = next })
