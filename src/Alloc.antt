-- ===== src/Alloc.antt =====
-- kernel/src/allocator/bump.rs and `align_up` of kernel/src/allocator/mod.rs: the bump allocator.
-- The three atomics are the fields of one record; a null pointer is 0.
pub mod Align
pub mod Serial
pub mod Nested
pub mod Requests
pub mod Threads
pub mod Disjoint
pub mod Safety
mod Tests
use zulu_os.Base.{
  ℕ, ◌+◌, ◌-◌, ◌*◌, ◌%◌, Bool, true, false, Option, none, some, ◌>>=◌, ltb, ◌==◌, if◌then◌else◌,
  bit_and, usize_mod, usize_add, usize_sub,
}

pub record BumpAllocator : Type 0 where
  pub heap_start : ℕ
  pub heap_end : ℕ
  pub next : ℕ

-- `core::alloc::Layout`
pub record Layout : Type 0 where
  pub size : ℕ
  pub align : ℕ

unfoldable pub heap_start_address : ℕ
heap_start_address = 0x4444_4444_0000

unfoldable pub heap_size : ℕ
heap_size = 100 * 1024

pub new : BumpAllocator
new = record { heap_start = 0; heap_end = 0; next = 0 }

-- `checks` is the profile's overflow check; `none` is a panic.
module _ (checks : Bool) where
  pub init : BumpAllocator → ℕ → ℕ → Option BumpAllocator
  init a start size = do
    end ← usize_add checks start size
    some (record { heap_start = start; heap_end = end; next = start })

  -- `(value + align - 1) & !(align - 1)`
  pub align_up : ℕ → ℕ → Option ℕ
  align_up value align = do
    sum ← usize_add checks value align
    last ← usize_sub checks sum 1
    low ← usize_sub checks align 1
    some (bit_and last (usize_mod - 1 - low))

-- `self.next.fetch_add(size)`: the value before, and the allocator after. An atomic addition wraps.
pub fetch_add : BumpAllocator → ℕ → ℕ × BumpAllocator
fetch_add a size = (a.next, record a { next = (a.next + size) % usize_mod })

-- The test of `alloc` on the value that `fetch_add` returned.
pub grant : BumpAllocator → ℕ → ℕ
grant a new_ptr = if ltb a.heap_end new_ptr then 0 else new_ptr

-- `self.next.compare_exchange(current, new)`; what it returns is not used.
pub compare_exchange : BumpAllocator → ℕ → ℕ → BumpAllocator
compare_exchange a current value = if a.next == current then record a { next = value } else a

-- What `dealloc` stores, once it has loaded `current_ptr`, if it stores at all.
pub dealloc_target : Bool → ℕ → ℕ → ℕ → Option (Option ℕ)
dealloc_target checks ptr size current = do
  end ← usize_add checks ptr size
  if end == current
      then (do target ← usize_sub checks current size; some (some target))
      else some none

module _ (checks : Bool) where
  pub alloc : BumpAllocator → Layout → Option (ℕ × BumpAllocator)
  unfolding fetch_add grant
  alloc a layout = do
    size ← align_up checks layout.size layout.align
    let (new_ptr, a') = fetch_add a size
    some (grant a' new_ptr, a')

  -- The rest of `dealloc` after its load of `next`, which gave `current`; another thread may have
  -- moved `next` since.
  pub dealloc_store : BumpAllocator → ℕ → Layout → ℕ → Option BumpAllocator
  unfolding dealloc_target compare_exchange
  dealloc_store a ptr layout current = do
    size ← align_up checks layout.size layout.align
    target ← dealloc_target checks ptr size current
    some (elim target [ none ↦ a | some value ↦ compare_exchange a current value ])

  -- `dealloc` with no other thread between its load and its compare-exchange
  pub dealloc : BumpAllocator → ℕ → Layout → Option BumpAllocator
  unfolding dealloc_store
  dealloc a ptr layout = dealloc_store a ptr layout a.next
