-- ===== src/Mapping/Guard.antt =====
-- `init`, `mapper` and `MapperGuard` of kernel/src/memory.rs: the page mapper in a static. A panic is
-- `none`, and so is a look at the static before `init` has written it.
use zulu_os.Base.{ℕ, Option, some, ◌>>=◌}
use zulu_os.Paging.{Paging}

pub record MapperGuard (T : Type 0) : Type 0 where
  pub inner : T

-- `MAPPER`: nothing until it is written.
abbrev pub Static : Type 0 → Type 0
Static T = Option T

-- `init`, which reads the frame of the table from CR3; `new` is `OffsetPageTable::new` on the table at an
-- address, with the offset of physical memory. The guard refers to the static.
unfoldable pub memory_init :
    {T : Type 0} → Paging → (ℕ → ℕ → T) → ℕ → ℕ → Static T → Option (MapperGuard T × Static T)
memory_init P new physical_memory_offset phys_addr static = do
  virt_addr ← P.add physical_memory_offset phys_addr
  let mapper = new virt_addr physical_memory_offset
  some (record { inner = mapper }, some mapper)

-- `mapper`
unfoldable pub mapper : {T : Type 0} → Static T → Option (MapperGuard T)
mapper static = do t ← static; some (record { inner = t })

-- `MapperGuard::with`: what the closure returns, and the static as the closure leaves it.
unfoldable pub with_mapper :
    {T R : Type 0} → MapperGuard T → (T → Option (R × T)) → Option (R × Static T)
with_mapper guard f = do (r, t) ← f guard.inner; some (r, some t)
