-- ===== src/Aggregate/Money/Rounding.antt =====
-- Rounding to the nearest integer, halves away from zero.
use native.Mathlib.Nat.{lt-div-mul-add, div-mul-le_self, mul_left_comm}
use chic_mcp.Prelude.{ℕ, zero, suc, ◌+◌, ◌*◌, ◌/◌, ◌≤◌, ◌<◌, ◌≡◌, arith, if◌then◌else◌}
use chic_mcp.Prelude.Int.{ℤ, pos, negsuc, pos_part, neg_part, abs, neg, ltb_ℤ}
use chic_mcp.Aggregate.Money.{half_up, negative, round_div, minor_to_major}

double : (q b : ℕ) → q * (2 * b) ≡ 2 * (q * b)
double q b = mul_left_comm q 2 b

-- The magnitude of a rounded quotient is the nearest one, the upper one at a half.
half_up-bounds :
    (a b : ℕ)
    → 0 < b
    → (2 * (half_up a b * b) ≤ 2 * a + b) × (2 * a + b < 2 * (half_up a b * b) + 2 * b)
unfolding half_up
half_up-bounds a zero h = absurd (omega arith)
half_up-bounds a (suc b) h =
    let q = (2 * a + suc b) / (2 * suc b) in
    let low : q * (2 * suc b) ≤ 2 * a + suc b = div-mul-le_self (2 * a + suc b) (2 * suc b) in
    let high : 2 * a + suc b < q * (2 * suc b) + 2 * suc b = lt-div-mul-add (omega arith) in
    (omega (arith, double q (suc b), low), omega (arith, double q (suc b), high))

plus_zero : (n : ℕ) → n + 0 ≡ n
plus_zero n = omega arith

zero_plus : (n : ℕ) → 0 + n ≡ n
zero_plus n = omega arith

pub round_pos : (n one : ℕ) → round_div (pos n) (pos one) ≡ pos (half_up n one)
unfolding round_div negative
round_pos n one = rw (plus_zero n, plus_zero one) (ground arith)

round_neg : (n one : ℕ) → round_div (negsuc n) (pos one) ≡ neg (pos (half_up (suc n) one))
unfolding round_div negative
round_neg n one = rw (plus_zero one) (ground arith)

neg_shape : (k : ℕ) → (pos_part (neg (pos k)) ≡ 0) × (neg_part (neg (pos k)) ≡ k)
unfolding neg
neg_shape k = ground arith

-- An amount in minor units, in steps of one part in `one`, becomes the nearest whole number of them,
-- a half going away from zero for either sign, and keeps its sign.
pub minor_to_major-Nearest :
    (one : ℕ) (minor : ℤ)
    → 0 < one
    → let major = minor_to_major one minor in
      (2 * (abs major * one) ≤ 2 * abs minor + one)
      × (2 * abs minor + one < 2 * (abs major * one) + 2 * one)
      × (major ≡ (if ltb_ℤ minor (pos 0) then neg (pos (abs major)) else pos (abs major)))
unfolding minor_to_major
minor_to_major-Nearest one (pos n) h =
    let (low, high) = half_up-bounds n one h in
    rw (round_pos n one, plus_zero (half_up n one))
      (omega (arith, low), omega (arith, high), ground arith)
minor_to_major-Nearest one (negsuc n) h =
    let (low, high) = half_up-bounds (suc n) one h in
    let shape = neg_shape (half_up (suc n) one) in
    rw (round_neg n one, shape.0, shape.1, zero_plus (half_up (suc n) one))
      (omega (arith, low), omega (arith, high), ground arith)
