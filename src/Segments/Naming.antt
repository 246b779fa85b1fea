-- ===== src/Segments/Naming.antt =====
-- What the segment registers name after `gdt_init` (kernel/src/gdt.rs).
use zulu_os.Base.{
  ℕ, ◌+◌, ◌*◌, ◌%◌, ◌/◌, ◌≤◌, ◌<◌, ◌≡◌, refl, ◌∙◌, ap, true, false, none, some, arith, sym,
}
use zulu_os.Segments.{
  Descriptor, kernel_code_segment, kernel_data_segment, user_data_segment, user_code_segment,
  tss_segment, rpl, places, Descriptors, Selectors, gdt, Segments, gdt_init,
}

module _ (D : Descriptors) where
  open D use {Gdt, used, entry, add_entry, star_write}

  -- A table of `used` places, and the descriptor behind them.
  record Added (n m selector : ℕ) (d : Descriptor) (g g' : Gdt) : Type 0 where
    added : add_entry d g ≡ some (selector, g')
    used_now : used g' ≡ m
    here : entry g' n ≡ some d
    kept : (i : ℕ) → i < n → entry g' i ≡ entry g i

  added_lem :
      (n : ℕ) (d : Descriptor) (g : Gdt)
      → used g ≡ n
      → n + places d ≤ 8
      → (g' : Gdt) × Added n (n + places d) (n * 8 + rpl d) d g g'
  added_lem n d g u room =
      let (g', e, v, h, k) = D.add_entry_lem d g (omega (arith, u)) in
      (
        g',
        record {
          added = e ∙ ap (λ m. some (m * 8 + rpl d, g')) u;
          used_now = v ∙ ap (λ m. m + places d) u;
          here = ap (λ m. entry g' m) (sym u) ∙ h;
          kept = λ i lt. k i (omega (arith, u, lt));
        },
      )

  -- The table names, by place, what the selectors are called after.
  pub record Named (g : Gdt) : Type 0 where
    pub at_kernel_code : entry g (0x08 / 8) ≡ some kernel_code_segment
    pub at_kernel_data : entry g (0x10 / 8) ≡ some kernel_data_segment
    pub at_user_data : entry g (0x1b / 8) ≡ some user_data_segment
    pub at_user_code : entry g (0x23 / 8) ≡ some user_code_segment
    pub at_tss : entry g (0x28 / 8) ≡ some tss_segment
    pub at_kernel_data2 : entry g (0x38 / 8) ≡ some kernel_data_segment

  abbrev selectors : Selectors
  selectors = record {
    kernel_code_selector = 0x08;
    kernel_data_selector = 0x10;
    user_code_selector = 0x23;
    user_data_selector = 0x1b;
    tss_selector = 0x28;
    kernel_data_selector2 = 0x38;
  }

  gdt_chain :
      (g1 g2 g3 g4 g5 g6 : Gdt)
      → Added 1 2 0x08 kernel_code_segment D.new g1
      → Added 2 3 0x10 kernel_data_segment g1 g2
      → Added 3 4 0x1b user_data_segment g2 g3
      → Added 4 5 0x23 user_code_segment g3 g4
      → Added 5 7 0x28 tss_segment g4 g5
      → Added 7 8 0x38 kernel_data_segment g5 g6
      → (gdt D ≡ some (g6, selectors)) × Named g6
  unfolding gdt
  gdt_chain g1 g2 g3 g4 g5 g6 a1 a2 a3 a4 a5 a6 =
      let k6 = a6.kept in
      let k5 = λ (i : ℕ) (lt : i < 5). k6 i (omega (arith, lt)) ∙ a5.kept i lt in
      let k4 = λ (i : ℕ) (lt : i < 4). k5 i (omega (arith, lt)) ∙ a4.kept i lt in
      let k3 = λ (i : ℕ) (lt : i < 3). k4 i (omega (arith, lt)) ∙ a3.kept i lt in
      let k2 = λ (i : ℕ) (lt : i < 2). k3 i (omega (arith, lt)) ∙ a2.kept i lt in
      (
        rw (a1.added, a2.added, a3.added, a4.added, a5.added, a6.added) refl,
        record {
          at_kernel_code = k2 1 (omega arith) ∙ a1.here;
          at_kernel_data = k3 2 (omega arith) ∙ a2.here;
          at_user_data = k4 3 (omega arith) ∙ a3.here;
          at_user_code = k5 4 (omega arith) ∙ a4.here;
          at_tss = k6 5 (omega arith) ∙ a5.here;
          at_kernel_data2 = a6.here;
        },
      )

  gdt_lem : (g : Gdt) × (gdt D ≡ some (g, selectors)) × Named g
  unfolding rpl places
  gdt_lem =
      let (g1, a1) = added_lem 1 kernel_code_segment D.new D.used_new (omega arith) in
      let (g2, a2) = added_lem 2 kernel_data_segment g1 a1.used_now (omega arith) in
      let (g3, a3) = added_lem 3 user_data_segment g2 a2.used_now (omega arith) in
      let (g4, a4) = added_lem 4 user_code_segment g3 a3.used_now (omega arith) in
      let (g5, a5) = added_lem 5 tss_segment g4 a4.used_now (omega arith) in
      let (g6, a6) = added_lem 7 kernel_data_segment g5 a5.used_now (omega arith) in
      let (e, n) = gdt_chain g1 g2 g3 g4 g5 g6 a1 a2 a3 a4 a5 a6 in (g6, e, n)

  -- Where the processor has `fsgsbase`, `gdt_init` does not panic: CS, DS, GS and the task register name
  -- the descriptors that they are meant for, and so do the selectors that `sysret` (CS: base + 16, SS: base
  -- + 8, level 3) and `syscall` (CS: base, SS: base + 8) derive from IA32_STAR. Where it has not, `gdt_init`
  -- panics.
  pub gdt_init_lem :
      (gdt_init D false ≡ none)
      × ((s : Segments D) × (gdt_init D true ≡ some s)
          × (entry s.table (s.cs / 8) ≡ some kernel_code_segment)
          × (entry s.table (s.ds / 8) ≡ some kernel_data_segment)
          × (entry s.table (s.gs / 8) ≡ some kernel_data_segment)
          × (entry s.table (s.tr / 8) ≡ some tss_segment)
          × (entry s.table ((s.star.sysret_base + 16) / 8) ≡ some user_code_segment)
          × (entry s.table ((s.star.sysret_base + 8) / 8) ≡ some user_data_segment)
          × (entry s.table (s.star.syscall_base / 8) ≡ some kernel_code_segment)
          × (entry s.table ((s.star.syscall_base + 8) / 8) ≡ some kernel_data_segment)
          × ((s.star.sysret_base + 16) % 4 ≡ 3)
          × (s.cs % 4 ≡ 0))
  unfolding gdt_init
  gdt_init_lem =
      let (g, e, n) = gdt_lem in
      let star : star_write 0x23 0x1b 0x08 0x10
          ≡ some (record { sysret_base = 0x13; syscall_base = 0x08 }) =
        D.star_write_lem 0x23 0x1b 0x08 0x10 (omega arith) refl refl refl refl in
      (
        refl,
        (
          record {
            table = g;
            cs = 0x08;
            ds = 0x10;
            gs = 0x38;
            star = record { sysret_base = 0x13; syscall_base = 0x08 };
            tr = 0x28;
          },
          rw (e, star) refl,
          n.at_kernel_code,
          n.at_kernel_data,
          n.at_kernel_data2,
          n.at_tss,
          n.at_user_code,
          n.at_user_data,
          n.at_kernel_code,
          n.at_kernel_data,
          refl,
          refl,
        ),
      )
