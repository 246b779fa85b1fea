-- ===== src/Syscall/Samples.antt =====
-- A machine with two user pages: test data for the system calls (kernel/src/syscall/).
use zulu_os.Base.{
  ℕ, suc, ◌+◌, ◌-◌, ◌*◌, ◌/◌, ◌^◌, ◌≤◌, ◌<◌, ◌≡◌, refl, ap, Bool, true, false, Option, none, some,
  arith, ltb, ◌==◌, if◌then◌else◌, dec_lt,
}
use zulu_os.Paging.{
  Paging, Flag, present, writable, user_accessible, no_execute, Translation, not_mapped, mapped,
  page_run,
}
use zulu_os.Vga.Samples.{plain, blank_writer}
use zulu_os.Syscall.{read_only, Kernel}
use zulu_os.Syscall.Slices.{UserPage}

unfoldable pub low_address : ℕ → Option ℕ
low_address a = if ltb a (2 ^ 47) then some a else none

pub low_address_low : (a : ℕ) → a < 2 ^ 47 → low_address a ≡ some a
unfolding low_address
low_address_low a h = ground arith

pub low_address_far :
    (a n : ℕ) → a < 2 ^ 47 → 2 ^ 48 ≤ a + n → a + n < 2 ^ 64 - 2 ^ 47 → low_address (a + n) ≡ none
unfolding low_address
low_address_far a n h far top = ground arith

pub run_law :
    (first n : ℕ)
    → page_run (suc ((first + n * 4096 - first) / 4096)) first ≡ page_run (suc n) first
run_law first n = ap (λ k. page_run (suc k) first) (omega arith)

pub range_law :
    (first n : ℕ) → page_run ((first + n * 4096 - first) / 4096) first ≡ page_run n first
range_law first n = ap (λ k. page_run k first) (omega arith)

abbrev pub machine : Paging
machine = record {
  try_new = low_address;
  add = λ a n. low_address (a + n);
  page_containing = λ a. a / 4096 * 4096;
  range_inclusive = λ first last. page_run (suc ((last - first) / 4096)) first;
  range = λ first last. page_run ((last - first) / 4096) first;
  Flags = Flag → Bool;
  contains = λ flags f. flags f;
  Mapper = ℕ → Translation (Flag → Bool);
  translate = λ m a. m a;
  try_new_low = low_address_low;
  add_low = λ a n h. low_address_low (a + n) h;
  add_far = low_address_far;
  page_containing_lem = λ a. refl;
  range_inclusive_lem = run_law;
  range_lem = range_law;
}

-- Two user pages at 0x1000 and 0x2000, the second one not writable.
abbrev pub two_pages : ℕ → Translation (Flag → Bool)
two_pages a =
    if a == 0x1000
    then mapped (λ f. true)
    else if a == 0x2000
    then mapped
        (elim [ present ↦ true | writable ↦ false | user_accessible ↦ true | no_execute ↦ true ])
    else not_mapped

abbrev pub idle_kernel : Kernel plain machine true
idle_kernel = record {
  console = blank_writer;
  mapper = two_pages;
  memory = λ a. b'a';
  interrupts = false;
}

pub readable :
    (b : ℕ) → 0x1ffe ≤ b → b < 0x1ffe + 4 → UserPage machine two_pages read_only (b / 4096 * 4096)
readable b lo hi = elim (dec_lt b 0x2000) [
  | yes first ↦ let page : b / 4096 * 4096 ≡ 0x1000 = omega arith in rw page refl
  | no second ↦ let page : b / 4096 * 4096 ≡ 0x2000 = omega arith in rw page refl
]
