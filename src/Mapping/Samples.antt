-- ===== src/Mapping/Samples.antt =====
-- A mapper that keeps a table and a memory, in which every page has bytes of its own: test data.
use zulu_os.Base.{
  ℕ, zero, suc, ◌+◌, ◌*◌, ◌/◌, ◌<◌, ◌≤◌, ◌≡◌, ◌≢◌, refl, ◌∙◌, Bool, true, Option, none, some, ◌==◌,
  if◌then◌else◌, arith,
}
use zulu_os.Paging.{Flag, present, writable, Translation, not_mapped, mapped}
use zulu_os.Syscall.Samples.{machine}
use zulu_os.Mapping.{PageMapper}

pub record Table : Type 0 where
  pub flags : ℕ → Option (Flag → Bool)
  pub memory : ℕ → ℕ
  pub left : ℕ

abbrev pub with_page : ℕ → (Flag → Bool) → Table → Table
with_page page flags s = record s { flags = λ q. if page == q then some flags else s.flags q }

unfoldable pub take_frame : ℕ → Table → Option ℕ × Table
take_frame zero s = (none, s)
take_frame (suc n) s = (some n, record s { left = n })

unfoldable pub new_flags : Option (Flag → Bool) → ℕ → (Flag → Bool) → Table → Option Table
new_flags none page flags s = none
new_flags (some old) page flags s = some (with_page page flags s)

unfoldable pub store : Option (Flag → Bool) → ℕ → ℕ → Table → Option Table
store none a v s = none
store (some flags) a v s = some (record s { memory = λ b. if a == b then v else s.memory b })

pub take_frame-flags : (n : ℕ) (s : Table) (q : ℕ) → (take_frame n s).1.flags q ≡ s.flags q
unfolding take_frame
take_frame-flags zero s q = refl
take_frame-flags (suc n) s q = refl

pub take_frame-some :
    (n : ℕ) (s : Table)
    → 0 < n
    → (frame : ℕ) × ((take_frame n s).0 ≡ some frame)
      × (n ≤ (take_frame n s).1.left + 1)
      × Unit {0}
      × Unit {0}
unfolding take_frame
take_frame-some zero s h = absurd (omega arith)
take_frame-some (suc n) s h = (n, refl, omega arith, tt, tt)

pub map_none :
    (page : ℕ) (flags : Flag → Bool) (s : Table) (q : ℕ)
    → page ≢ q
    → s.flags q ≡ none
    → (if page == q then some flags else s.flags q) ≡ none
map_none page flags s q ne h = ground arith

pub new_flags_lem :
    (page : ℕ) (flags old : Flag → Bool) (s : Table)
    → s.flags page ≡ some old
    → (s' : Table) × (new_flags (s.flags page) page flags s ≡ some s')
      × ((q : ℕ) → s'.flags q ≡ (if page == q then some flags else s.flags q))
      × ((q : ℕ) → Unit {0} → Unit {0})
      × ((b : ℕ) → s'.memory b ≡ s.memory b)
unfolding new_flags
new_flags_lem page flags old s e =
    (with_page page flags s, rw (e, new_flags) refl, λ q. refl, λ q u. u, λ b. refl)

pub store_lem :
    (a v : ℕ) (flags : Flag → Bool) (s : Table)
    → s.flags (a / 4096 * 4096) ≡ some flags
    → flags present ≡ true
    → flags writable ≡ true
    → (s' : Table) × (store (s.flags (a / 4096 * 4096)) a v s ≡ some s')
      × ((q : ℕ) → s'.flags q ≡ s.flags q)
      × ((q : ℕ) → Unit {0} → Unit {0})
      × ((b : ℕ) (other : Flag → Bool)
          → s.flags (b / 4096 * 4096) ≡ some other
          → s'.memory b ≡ (if a == b then v else s.memory b))
unfolding store
store_lem a v flags s e p w = (
  record s { memory = λ b. if a == b then v else s.memory b },
  rw (e, store) refl,
  λ q. refl,
  λ q u. u,
  λ b o h. refl,
)

pub room_kept : (left : ℕ) → left ≤ left + 3
room_kept left = omega arith

unfoldable pub translation : Option (Flag → Bool) → Translation (Flag → Bool)
translation none = not_mapped
translation (some flags) = mapped flags

pub translation_lem :
    (o : Option (Flag → Bool)) (flags : Flag → Bool) → o ≡ some flags → translation o ≡ mapped flags
unfolding translation
translation_lem o flags e = rw (e, translation) refl

abbrev pub table_mapper : PageMapper machine
table_mapper = record {
  S = Table;
  MapToError = ℕ;
  frame_allocation_failed = 0;
  allocate_frame = λ s. take_frame s.left s;
  map_to = λ page frame flags s. (none, with_page page flags s);
  update_flags = λ page flags s. new_flags (s.flags page) page flags s;
  write_byte = λ a v s. store (s.flags (a / 4096 * 4096)) a v s;
  mapper_of = λ s q. translation (s.flags q);
  flags_of = λ s q. s.flags q;
  byte_at = λ s b. s.memory b;
  frames_left = λ s. s.left;
  Free = λ s q. s.flags q ≡ none;
  Sound = λ s. Unit {0};
  Unused = λ s f. Unit {0};
  Alone = λ s q. Unit {0};
  allocate_frame_lem = λ s q. take_frame-flags s.left s q;
  allocate_frame_some = λ s h sound. take_frame-some s.left s h;
  allocate_frame-Free = λ s q h. take_frame-flags s.left s q ∙ h;
  allocate_frame-Alone = λ s q u. u;
  map_to_lem = λ page frame flags s q h. refl;
  map_to_none = λ page frame flags s sound unused h r.
      (refl, room_kept s.left, tt, tt, λ q ne u. u, λ q ne g. map_none page flags s q ne g);
  update_flags_lem = λ page flags old s h. new_flags_lem page flags old s h;
  write_byte_lem = λ a v flags s e p w u. store_lem a v flags s e p w;
  translate_lem = λ s page flags e p. translation_lem (s.flags page) flags e;
}

abbrev pub empty_table : Table
empty_table = record { flags = λ q. none; memory = λ b. 0; left = 1000 }
