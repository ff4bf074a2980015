-- ===== src/Aggregate/Money.antt =====
-- chic/aggregate/money.py. A float of the source is an exact decimal, held as an integer number of
-- steps of 1/`one`; a `Decimal` with two places and a float that `round2` returns are held as an
-- integer number of hundredths. The rounding of binary floats is not modelled.
pub mod Rounding
use chic_mcp.Prelude.{
  ℕ, zero, suc, ◌+◌, ◌*◌, ◌/◌, Bool, true, false, ltb, ◌==◌, nat_eq, if◌then◌else◌,
}
use chic_mcp.Prelude.Int.{ℤ, pos, negsuc, pos_part, neg_part, abs, neg, ◌-ℤ◌, ◌*ℤ◌, leb_ℤ, ltb_ℤ}

-- `Decimal` amounts with two places
abbrev pub Money : Type 0
Money = ℤ

abbrev pub Hundredths : Type 0
Hundredths = ℤ

-- Floats as the source has them
abbrev pub Steps : Type 0
Steps = ℤ

-- `ROUND_HALF_UP` of a quotient of magnitudes; a zero divisor gives 0 and is excluded by its callers.
unfoldable pub half_up : ℕ → ℕ → ℕ
half_up a zero = 0
half_up a (suc b) = (2 * a + suc b) / (2 * suc b)

negative : ℤ → Bool
negative a = ltb_ℤ a (pos 0)

-- A quotient rounded to an integer, halves away from zero: `round_half_away` and `ROUND_HALF_UP`.
unfoldable pub round_div : ℤ → ℤ → ℤ
unfolding half_up negative
round_div a b =
    let q = half_up (abs a) (abs b) in
    if negative a
    then (if negative b then pos q else neg (pos q))
    else if negative b
    then neg (pos q)
    else pos q

-- `minor_to_major`: a whole minor unit is a hundredth of a major unit.
unfoldable pub minor_to_major : ℕ → Steps → Money
minor_to_major one minor = round_div minor (pos one)

-- `round2`
unfoldable pub round2 : ℕ → Steps → Hundredths
round2 one v = round_div (v *ℤ pos 100) (pos one)

-- `money_round` of an amount in steps of 1/`one` hundredth
unfoldable pub money_round : ℕ → Steps → Money
money_round one v = round_div v (pos one)

-- `margin_pct`, of two amounts in the same unit
unfoldable pub margin_pct : ℤ → ℤ → Hundredths
margin_pct profit revenue =
    if abs revenue == 0 then pos 0 else round_div (profit *ℤ pos 10000) revenue

-- `pct_change`
unfoldable pub pct_change : ℤ → ℤ → Hundredths
pct_change a b =
    if abs a == 0
    then (if abs b == 0 then pos 0 else pos 10000)
    else round_div ((b -ℤ a) *ℤ pos 10000) a

-- `int(x)` on a float: the whole part, toward zero.
unfoldable pub whole : ℕ → Steps → ℤ
whole zero v = pos 0
whole (suc k) (pos n) = pos (n / suc k)
whole (suc k) (negsuc n) = neg (pos (suc n / suc k))
