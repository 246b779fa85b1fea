-- ===== src/Segments/Samples.antt =====
-- A table of eight places: test data for the segments.
use zulu_os.Base.{
  ℕ, ◌+◌, ◌*◌, ◌-◌, ◌%◌, ◌≤◌, ◌<◌, ◌≡◌, ◌≢◌, refl, ◌&&◌, Option, none, some, ◌==◌, leb,
  if◌then◌else◌, arith,
}
use zulu_os.Segments.{Descriptor, rpl, places, StarValue, Descriptors}

pub record Places : Type 0 where
  pub used : ℕ
  pub entry : ℕ → Option Descriptor

abbrev pub added : Descriptor → Places → Places
added d g = record {
  used = g.used + places d;
  entry = λ i. if i == g.used then some d else g.entry i;
}

unfoldable pub try_add : Descriptor → Places → Option (ℕ × Places)
try_add d g = if leb (g.used + places d) 8 then some (g.used * 8 + rpl d, added d g) else none

unfoldable pub try_write : ℕ → ℕ → ℕ → ℕ → Option StarValue
try_write cs_sysret ss_sysret cs_syscall ss_syscall =
    if leb 16 cs_sysret
      && (cs_sysret == ss_sysret + 8)
      && (ss_sysret % 4 == 3)
      && (ss_syscall == cs_syscall + 8)
      && (cs_syscall % 4 == 0)
    then some (record { sysret_base = ss_sysret - 8; syscall_base = cs_syscall })
    else none

pub try_add_lem :
    (d : Descriptor) (g : Places)
    → g.used + places d ≤ 8
    → (g' : Places) × (try_add d g ≡ some (g.used * 8 + rpl d, g'))
      × (g'.used ≡ g.used + places d)
      × (g'.entry g.used ≡ some d)
      × ((i : ℕ) → i < g.used → g'.entry i ≡ g.entry i)
unfolding try_add
try_add_lem d g h = (added d g, ground arith, refl, ground arith, λ i lt. ground arith)

pub try_write_lem :
    (cs_sysret ss_sysret cs_syscall ss_syscall : ℕ)
    → 16 ≤ cs_sysret
    → cs_sysret ≡ ss_sysret + 8
    → ss_sysret % 4 ≡ 3
    → ss_syscall ≡ cs_syscall + 8
    → cs_syscall % 4 ≡ 0
    → try_write cs_sysret ss_sysret cs_syscall ss_syscall
      ≡ some (record { sysret_base = ss_sysret - 8; syscall_base = cs_syscall })
unfolding try_write
try_write_lem a b c d h1 h2 h3 h4 h5 = ground arith

pub try_write_order :
    (cs_sysret ss_sysret cs_syscall ss_syscall : ℕ)
    → cs_sysret ≢ ss_sysret + 8
    → try_write cs_sysret ss_sysret cs_syscall ss_syscall ≡ none
unfolding try_write
try_write_order a b c d ne = ground arith

abbrev pub eight_places : Descriptors
eight_places = record {
  Gdt = Places;
  new = record { used = 1; entry = λ i. none };
  used = λ g. g.used;
  entry = λ g i. g.entry i;
  add_entry = try_add;
  star_write = try_write;
  used_new = refl;
  add_entry_lem = try_add_lem;
  star_write_lem = try_write_lem;
  star_write_order = try_write_order;
}
