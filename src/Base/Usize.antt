-- ===== src/Base/Usize.antt =====
-- `usize` and `u64` arithmetic. `checks` is the build's `overflow-checks`: on in the `dev` profile,
-- where an overflow panics (`none`), and off in `release`, where it wraps.
use Prim.Native.Nat.{ℕ, ◌+◌, ◌-◌, ◌%◌, ◌^◌, ◌<◌, ◌≤◌}
use mathlib.Core.Path.{◌≡◌}
use mathlib.Core.Bool.{Bool, ◌&&◌}
use mathlib.Core.Option.{Option, none, some}
use native.Mathlib.Omega.{arith}
use zulu_os.Base.Tests.{ltb, leb, if◌then◌else◌}

abbrev pub usize_mod : ℕ
usize_mod = 2 ^ 64

abbrev pub isize_max : ℕ
isize_max = 2 ^ 63 - 1

unfoldable pub usize_add : Bool → ℕ → ℕ → Option ℕ
usize_add checks a b = if checks && leb usize_mod (a + b) then none else some ((a + b) % usize_mod)

unfoldable pub usize_sub : Bool → ℕ → ℕ → Option ℕ
usize_sub checks a b = if checks && ltb a b then none else some ((a + usize_mod - b) % usize_mod)

-- Without an overflow both profiles compute the same.
pub usize_add_small :
    (checks : Bool) (a b : ℕ) → a + b < usize_mod → usize_add checks a b ≡ some (a + b)
unfolding usize_add
usize_add_small checks a b h = ground arith

pub usize_sub_small :
    (checks : Bool) (a b : ℕ) → b ≤ a → a < usize_mod → usize_sub checks a b ≡ some (a - b)
unfolding usize_sub
usize_sub_small checks a b h k = ground arith
