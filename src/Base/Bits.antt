-- ===== src/Base/Bits.antt =====
-- `&` with a mask of high bits, as arithmetic.
use Prim.Native.Nat.{
  ℕ, zero, suc, ◌+◌, ◌-◌, ◌*◌, ◌/◌, ◌%◌, ◌^◌, ◌≤◌, ◌<◌, min, max, bit_and, bit_or, digits,
  bit_and-bitwise, bit_or-bitwise,
}
use mathlib.Core.Path.{◌≡◌, refl, ◌∙◌, ap, sym}
use native.Mathlib.Omega.{arith}
use native.Mathlib.Nat.{pow-suc, one-le-pow, div-div-eq-div-mul, zero-div}

-- The digits of `x` from the `k`th on, read off under a mask of the bits from `k` up to `w`.
masked_digits :
    (fuel k w x : ℕ)
    → x ≤ fuel
    → k ≤ w
    → x < 2 ^ w
    → digits (λ y. zero) min fuel x (2 ^ w - 2 ^ k) ≡ x / 2 ^ k * 2 ^ k
masked_digits zero k w zero enough le fits = omega (arith, zero-div (2 ^ k))
masked_digits zero k w (suc x) enough le fits = absurd (omega arith)
masked_digits (suc fuel) k w zero enough le fits = omega (arith, zero-div (2 ^ k))
masked_digits (suc fuel) k zero (suc x) enough le fits = absurd (omega arith)
masked_digits (suc fuel) zero (suc w) (suc x) enough le fits =
    let half : (2 ^ suc w - 2 ^ 0) / 2 ≡ 2 ^ w - 2 ^ 0 =
      omega (arith, pow-suc 2 w, one-le-pow w 2) in
    let odd : (2 ^ suc w - 2 ^ 0) % 2 ≡ 1 = omega (arith, pow-suc 2 w, one-le-pow w 2) in
    rw (half, odd)
      (omega (
        arith,
        masked_digits fuel zero w (suc x / 2) (omega arith) (omega arith)
            (omega (arith, pow-suc 2 w)),
      ))
masked_digits (suc fuel) (suc k) (suc w) (suc x) enough le fits =
    let half : (2 ^ suc w - 2 ^ suc k) / 2 ≡ 2 ^ w - 2 ^ k =
      omega (arith, pow-suc 2 w, pow-suc 2 k) in
    let even : (2 ^ suc w - 2 ^ suc k) % 2 ≡ 0 = omega (arith, pow-suc 2 w, pow-suc 2 k) in
    let scaled : suc x / 2 ^ suc k ≡ suc x / 2 / 2 ^ k =
      ap (λ (d : ℕ). suc x / d) (omega (arith, pow-suc 2 k))
      ∙ sym (div-div-eq-div-mul (suc x) 2 (2 ^ k)) in
    rw (half, even, scaled, pow-suc 2 k)
      (omega (
        arith,
        pow-suc 2 k,
        masked_digits fuel k w (suc x / 2) (omega arith) (omega arith) (omega (arith, pow-suc 2 w)),
      ))

-- Clearing the low `k` bits of a `w`-bit number rounds it down to a multiple of `2 ^ k`.
pub bit_and-high : (k w x : ℕ) → k ≤ w → x < 2 ^ w → bit_and x (2 ^ w - 2 ^ k) ≡ x / 2 ^ k * 2 ^ k
bit_and-high k w x le fits =
    (λ i. bit_and-bitwise x (2 ^ w - 2 ^ k) i) ∙ masked_digits x k w x (omega arith) le fits

-- The digit of `2 ^ k` in a number.
abbrev pub digit : ℕ → ℕ → ℕ
digit k x = x / 2 ^ k % 2

digit-suc : (k x : ℕ) → digit (suc k) x ≡ digit k (x / 2)
digit-suc k x =
    ap (λ (d : ℕ). x / d % 2) (omega (arith, pow-suc 2 k))
    ∙ ap (λ (q : ℕ). q % 2) (sym (div-div-eq-div-mul x 2 (2 ^ k)))

digit_zero : (k : ℕ) → digit k 0 ≡ 0
digit_zero k = omega (arith, zero-div (2 ^ k))

-- An operation on numbers, digit by digit.
module _ (z : ℕ → ℕ) (f : ℕ → ℕ → ℕ) (small : (x y : ℕ) → x < 2 → y < 2 → f x y < 2)
    (ended : (k b : ℕ) → digit k (z b) ≡ f 0 (digit k b)) where
  digit_ended : (k b : ℕ) → digit k (z b) ≡ f (digit k 0) (digit k b)
  digit_ended k b = ended k b ∙ ap (λ x. f x (digit k b)) (sym (digit_zero k))

  digit-digits :
      (k fuel a b : ℕ) → a ≤ fuel → digit k (digits z f fuel a b) ≡ f (digit k a) (digit k b)
  digit-digits k zero zero b enough = digit_ended k b
  digit-digits k zero (suc a) b enough = absurd (omega arith)
  digit-digits k (suc fuel) zero b enough = digit_ended k b
  digit-digits zero (suc fuel) (suc a) b enough =
      let one_a : suc a / 2 ^ 0 ≡ suc a = omega arith in
      let one_b : b / 2 ^ 0 ≡ b = omega arith in
      rw (one_a, one_b) (omega (arith, small (suc a % 2) (b % 2) (omega arith) (omega arith)))
  digit-digits (suc k) (suc fuel) (suc a) b enough =
      let rest : ℕ = digits z f fuel (suc a / 2) (b / 2) in
      let halved : (rest * 2 + f (suc a % 2) (b % 2)) / 2 ≡ rest =
        omega (arith, small (suc a % 2) (b % 2) (omega arith) (omega arith)) in
      digit-suc k (rest * 2 + f (suc a % 2) (b % 2))
      ∙ ap (digit k) halved
      ∙ digit-digits k fuel (suc a / 2) (b / 2) (omega arith)
      ∙ rw (digit-suc k (suc a), digit-suc k b) refl

-- A digit is set in `a | b` if it is in one of them.
pub digit-bit_or : (k a b : ℕ) → digit k (bit_or a b) ≡ max (digit k a) (digit k b)
digit-bit_or k a b =
    ap (digit k) (λ i. bit_or-bitwise a b i)
    ∙ digit-digits (λ c. c) max (λ x y hx hy. omega arith) (λ k c. omega arith) k a a b
        (omega arith)

-- `a & !b`
abbrev pub and_not : ℕ → ℕ → ℕ
and_not a b = digits (λ c. 0) (λ x y. x - y) a a b

pub digit-and_not : (k a b : ℕ) → digit k (and_not a b) ≡ digit k a - digit k b
digit-and_not k a b =
    digit-digits (λ c. 0) (λ x y. x - y) (λ x y hx hy. omega arith)
      (λ k c. omega (arith, digit_zero k)) k a a b (omega arith)
