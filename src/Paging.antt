-- ===== src/Paging.antt =====
-- What the kernel takes from the crate `x86_64`: virtual addresses, pages and translation. An
-- address is its number, a page the number of its first byte; a panic is `none`.
use zulu_os.Base.{
  ℕ, zero, suc, ◌+◌, ◌-◌, ◌*◌, ◌/◌, ◌^◌, ◌<◌, ◌≤◌, ◌≡◌, Bool, List, [], ◌∷◌, Option, none, some,
}

-- The flags of a page that the kernel names.
pub data Flag : Type 0 where
  present writable user_accessible no_execute : Flag

-- `TranslateResult`; the frame and the offset are not used.
pub data Translation (Flags : Type 0) : Type 0 where
  not_mapped invalid_frame_address : Translation Flags
  mapped : Flags → Translation Flags

-- `n` pages from `page` on
abbrev pub page_run : ℕ → ℕ → List ℕ
page_run zero page = []
page_run (suc n) page = page ∷ page_run n (page + 4096)

-- The laws are the documented ones: addresses below 2 ^ 47 are canonical as they are, `+` panics
-- where the sum has data in the bits 48 to 63, pages are 4096 bytes, an inclusive range has both
-- its ends, another one the first alone.
pub record Paging : Type 1 where
  pub try_new : ℕ → Option ℕ
  pub add : ℕ → ℕ → Option ℕ
  pub page_containing : ℕ → ℕ
  pub range_inclusive : ℕ → ℕ → List ℕ
  pub range : ℕ → ℕ → List ℕ
  pub Flags : Type 0
  pub contains : Flags → Flag → Bool
  pub Mapper : Type 0
  pub translate : Mapper → ℕ → Translation Flags
  pub try_new_low : (a : ℕ) → a < 2 ^ 47 → try_new a ≡ some a
  pub add_low : (a n : ℕ) → a + n < 2 ^ 47 → add a n ≡ some (a + n)
  pub add_far : (a n : ℕ) → a < 2 ^ 47 → 2 ^ 48 ≤ a + n → a + n < 2 ^ 64 - 2 ^ 47 → add a n ≡ none
  pub page_containing_lem : (a : ℕ) → page_containing a ≡ a / 4096 * 4096
  pub range_inclusive_lem :
      (first n : ℕ) → range_inclusive first (first + n * 4096) ≡ page_run (suc n) first
  pub range_lem : (first n : ℕ) → range first (first + n * 4096) ≡ page_run n first
