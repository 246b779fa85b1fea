-- ===== src/Segments.antt =====
-- kernel/src/gdt.rs: the descriptor table, the stacks of the task-state segment, and the registers that
-- name segments. A panic is `none`.
pub mod Naming
pub mod Samples
mod Tests
use zulu_os.Base.{
  ℕ, ◌+◌, ◌*◌, ◌-◌, ◌%◌, ◌/◌, ◌≤◌, ◌<◌, ◌≡◌, ◌≢◌, Bool, true, false, Option, none, some, ◌>>=◌,
}
use zulu_os.Paging.{Paging}

-- The descriptors that the kernel adds.
pub data Descriptor : Type 0 where
  kernel_code_segment kernel_data_segment user_data_segment user_code_segment tss_segment :
      Descriptor

-- The privilege level in the selector, and the places in the table.
unfoldable pub rpl : Descriptor → ℕ
rpl kernel_code_segment = 0
rpl kernel_data_segment = 0
rpl user_data_segment = 3
rpl user_code_segment = 3
rpl tss_segment = 0

unfoldable pub places : Descriptor → ℕ
places kernel_code_segment = 1
places kernel_data_segment = 1
places user_data_segment = 1
places user_code_segment = 1
places tss_segment = 2

-- What `IA32_STAR` holds: the bases that `sysret` and `syscall` add to.
pub record StarValue : Type 0 where
  pub sysret_base : ℕ
  pub syscall_base : ℕ

-- `GlobalDescriptorTable` and `Star` of the crate `x86_64`. The table has eight places, the first one
-- of them the null descriptor; a selector is eight times the place, and the privilege level. `write`
-- refuses selectors that do not fit the distances and levels that the two instructions assume.
pub record Descriptors : Type 1 where
  pub Gdt : Type 0
  pub new : Gdt
  pub used : Gdt → ℕ
  pub entry : Gdt → ℕ → Option Descriptor
  pub add_entry : Descriptor → Gdt → Option (ℕ × Gdt)
  pub star_write : ℕ → ℕ → ℕ → ℕ → Option StarValue
  pub used_new : used new ≡ 1
  pub add_entry_lem :
      (d : Descriptor) (g : Gdt)
      → used g + places d ≤ 8
      → (g' : Gdt) × (add_entry d g ≡ some (used g * 8 + rpl d, g'))
        × (used g' ≡ used g + places d)
        × (entry g' (used g) ≡ some d)
        × ((i : ℕ) → i < used g → entry g' i ≡ entry g i)
  pub star_write_lem :
      (cs_sysret ss_sysret cs_syscall ss_syscall : ℕ)
      → 16 ≤ cs_sysret
      → cs_sysret ≡ ss_sysret + 8
      → ss_sysret % 4 ≡ 3
      → ss_syscall ≡ cs_syscall + 8
      → cs_syscall % 4 ≡ 0
      → star_write cs_sysret ss_sysret cs_syscall ss_syscall
        ≡ some (record { sysret_base = ss_sysret - 8; syscall_base = cs_syscall })
  pub star_write_order :
      (cs_sysret ss_sysret cs_syscall ss_syscall : ℕ)
      → cs_sysret ≢ ss_sysret + 8
      → star_write cs_sysret ss_sysret cs_syscall ss_syscall ≡ none

pub record Selectors : Type 0 where
  pub kernel_code_selector : ℕ
  pub kernel_data_selector : ℕ
  pub user_code_selector : ℕ
  pub user_data_selector : ℕ
  pub tss_selector : ℕ
  pub kernel_data_selector2 : ℕ

abbrev pub double_fault_stack_index : ℕ
double_fault_stack_index = 0

abbrev pub page_fault_stack_index : ℕ
page_fault_stack_index = 1

abbrev pub stack_size : ℕ
stack_size = 1024 * 20

-- The stacks of `TaskStateSegment` that the kernel sets, by the address that a stack starts from.
pub record TaskStateSegment : Type 0 where
  pub double_fault_stack : ℕ
  pub page_fault_stack : ℕ
  pub privilege_stack : ℕ

-- The static `TSS`, for the addresses of its three arrays; a stack grows down from the array's end.
pub task_state : Paging → ℕ → ℕ → ℕ → Option TaskStateSegment
task_state P double_fault page_fault privilege = do
  double_fault_end ← P.add double_fault stack_size
  page_fault_end ← P.add page_fault stack_size
  privilege_end ← P.add privilege stack_size
  some (record {
    double_fault_stack = double_fault_end;
    page_fault_stack = page_fault_end;
    privilege_stack = privilege_end;
  })

module _ (D : Descriptors) where
  open D use {Gdt, add_entry, star_write}

  -- The static `GDT`.
  pub gdt : Option (Gdt × Selectors)
  gdt = do
    (kernel_code_selector, g1) ← add_entry kernel_code_segment D.new
    (kernel_data_selector, g2) ← add_entry kernel_data_segment g1
    (user_data_selector, g3) ← add_entry user_data_segment g2
    (user_code_selector, g4) ← add_entry user_code_segment g3
    (tss_selector, g5) ← add_entry tss_segment g4
    (kernel_data_selector2, g6) ← add_entry kernel_data_segment g5
    some (
      g6,
      record {
        kernel_code_selector = kernel_code_selector;
        kernel_data_selector = kernel_data_selector;
        user_code_selector = user_code_selector;
        user_data_selector = user_data_selector;
        tss_selector = tss_selector;
        kernel_data_selector2 = kernel_data_selector2;
      },
    )

  -- The registers that `gdt_init` writes.
  pub record Segments : Type 0 where
    pub table : Gdt
    pub cs : ℕ
    pub ds : ℕ
    pub gs : ℕ
    pub star : StarValue
    pub tr : ℕ

  -- `gdt_init`; `has_fsgsbase` is what `cpuid` says.
  pub gdt_init : Bool → Option Segments
  unfolding gdt
  gdt_init false = none
  gdt_init true = do
    (table, selectors) ← gdt
    star ←
        star_write selectors.user_code_selector selectors.user_data_selector
          selectors.kernel_code_selector selectors.kernel_data_selector
    some (record {
      table = table;
      cs = selectors.kernel_code_selector;
      ds = selectors.kernel_data_selector;
      gs = selectors.kernel_data_selector2;
      star = star;
      tr = selectors.tss_selector;
    })
