-- ===== src/Prelude/Bits.antt =====
-- A word that packs a number above `k` bits with one below, as arithmetic.
use Prim.Native.Nat.{
  ℕ, zero, suc, ◌+◌, ◌-◌, ◌*◌, ◌/◌, ◌%◌, ◌^◌, ◌≤◌, ◌<◌, max, min, digits, bitwise, bit_or,
  bit_or-bitwise, bit_and, bit_and-bitwise,
}
use mathlib.Core.Path.{◌≡◌, refl, sym, ◌∙◌, ap}
use native.Mathlib.Nat.{pow-suc}
use native.Mathlib.Omega.{arith}

-- What every operation on the binary digits obeys: `join` on two digits, `z` past the first number.
module _ (z : ℕ → ℕ) (join : ℕ → ℕ → ℕ) where
  no_digits : (count b : ℕ) → digits z join count 0 b ≡ z b
  no_digits zero b = refl
  no_digits (suc count) b = refl

  -- Any two counts that cover the first number give the same digits.
  digits_cover :
      (a b count other : ℕ)
      → a ≤ count
      → a ≤ other
      → digits z join count a b ≡ digits z join other a b
  digits_cover zero b count other h g = no_digits count b ∙ sym (no_digits other b)
  digits_cover (suc a) b (suc count) (suc other) h g =
      ap (λ d. d * 2 + join (suc a % 2) (b % 2))
        (digits_cover (suc a / 2) (b / 2) count other (omega arith) (omega arith))
  digits_cover (suc a) b zero other h g = absurd (omega arith)
  digits_cover (suc a) b (suc count) zero h g = absurd (omega arith)

  lowest_digit :
      (a b : ℕ)
      → bitwise z join (suc a) b ≡ bitwise z join (suc a / 2) (b / 2) * 2 + join (suc a % 2) (b % 2)
  lowest_digit a b =
      ap (λ d. d * 2 + join (suc a % 2) (b % 2))
        (digits_cover (suc a / 2) (b / 2) a (suc a / 2) (omega arith) (omega arith))

or_low : (a b : ℕ) → bit_or a b ≡ bit_or (a / 2) (b / 2) * 2 + max (a % 2) (b % 2)
or_low zero b = omega (arith, bit_or-bitwise 0 b, bit_or-bitwise 0 (b / 2))
or_low (suc a) b =
    bit_or-bitwise (suc a) b
    ∙ lowest_digit (λ d. d) max a b
    ∙ ap (λ d. d * 2 + max (suc a % 2) (b % 2)) (sym (bit_or-bitwise (suc a / 2) (b / 2)))

and_low : (a b : ℕ) → bit_and a b ≡ bit_and (a / 2) (b / 2) * 2 + min (a % 2) (b % 2)
and_low zero b = omega (arith, bit_and-bitwise 0 b, bit_and-bitwise 0 (b / 2))
and_low (suc a) b =
    bit_and-bitwise (suc a) b
    ∙ lowest_digit (λ d. 0) min a b
    ∙ ap (λ d. d * 2 + min (suc a % 2) (b % 2)) (sym (bit_and-bitwise (suc a / 2) (b / 2)))

-- `bound` is fuel for the halving.
or_nothing : (bound a : ℕ) → a ≤ bound → bit_or a 0 ≡ a
or_nothing bound zero h = bit_or-bitwise 0 0
or_nothing (suc bound) (suc a) h =
    omega (arith, or_low (suc a) 0, or_nothing bound (suc a / 2) (omega arith))
or_nothing zero (suc a) h = absurd (omega arith)

and_nothing : (bound a : ℕ) → a ≤ bound → bit_and a 0 ≡ 0
and_nothing bound zero h = bit_and-bitwise 0 0
and_nothing (suc bound) (suc a) h =
    omega (arith, and_low (suc a) 0, and_nothing bound (suc a / 2) (omega arith))
and_nothing zero (suc a) h = absurd (omega arith)

-- a << k | b, where `b` has at most `k` bits.
pub bit_or-shifted : (k a b : ℕ) → b < 2 ^ k → bit_or (a * 2 ^ k) b ≡ a * 2 ^ k + b
bit_or-shifted zero a b h =
    let none_left : b ≡ 0 = omega arith in
    rw none_left (omega (arith, or_nothing (a * 2 ^ 0) (a * 2 ^ 0) (omega arith)))
bit_or-shifted (suc k) a b h =
    let double : a * 2 ^ suc k ≡ a * 2 ^ k * 2 = rw (pow-suc 2 k) (omega arith) in
    let half : a * 2 ^ suc k / 2 ≡ a * 2 ^ k = omega arith in
    omega (
      arith,
      pow-suc 2 k,
      rw half at (or_low (a * 2 ^ suc k) b),
      bit_or-shifted k a (b / 2) (omega (arith, pow-suc 2 k)),
    )

-- The low `k` bits: of `a << k | b` they are `b`.
pub bit_and_mask : (k a b : ℕ) → b < 2 ^ k → bit_and (a * 2 ^ k + b) (2 ^ k - 1) ≡ b
bit_and_mask zero a b h =
    let none_left : b ≡ 0 = omega arith in
    omega (arith, and_nothing (a * 2 ^ 0 + b) (a * 2 ^ 0 + b) (omega arith))
bit_and_mask (suc k) a b h =
    let double : a * 2 ^ suc k ≡ a * 2 ^ k * 2 = rw (pow-suc 2 k) (omega arith) in
    let half : (a * 2 ^ suc k + b) / 2 ≡ a * 2 ^ k + b / 2 = omega arith in
    let ones : (2 ^ suc k - 1) / 2 ≡ 2 ^ k - 1 = omega (arith, pow-suc 2 k) in
    omega (
      arith,
      pow-suc 2 k,
      rw (half, ones) at (and_low (a * 2 ^ suc k + b) (2 ^ suc k - 1)),
      bit_and_mask k a (b / 2) (omega (arith, pow-suc 2 k)),
    )
