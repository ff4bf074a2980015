-- ===== src/Aggregate/Purchase/Covered.antt =====
-- An order brings the stock up to its target, with no unit too many.
use native.Mathlib.Nat.{lt-div-mul-add, div-mul-le_self, le-div_iff_mul-le, mul-le-mul_left}
use chic_mcp.Prelude.{
  ℕ, ◌+◌, ◌-◌, ◌*◌, ◌/◌, ◌≤◌, ◌<◌, ◌≡◌, refl, Bool, true, false, ◌&&◌, Bool-cases, inl, inr, ◌⊎◌,
  arith,
}
use chic_mcp.Prelude.Int.{
  ℤ, pos, negsuc, pos_part, neg_part, ◌+ℤ◌, ◌-ℤ◌, ◌*ℤ◌, ◌≤ℤ◌, ltb_ℤ, int_laws, +ℤ_parts, -ℤ_parts,
  pos_mul,
}
use chic_mcp.Aggregate.Money.{Steps}
use chic_mcp.Aggregate.Purchase.{
  DemandStat, ceil_div, safety_of, reorder_point, order_up_to, is_low, to_order,
}

ceil_bounds : (k d : ℕ) → 0 < d → (k ≤ (k + d - 1) / d * d) × ((k + d - 1) / d * d < k + d)
ceil_bounds k d h =
    let low : (k + d - 1) / d * d ≤ k + d - 1 = div-mul-le_self (k + d - 1) d in
    let high : k + d - 1 < (k + d - 1) / d * d + d = lt-div-mul-add h in (omega arith, omega arith)

ceil_pos : (k d : ℕ) → 0 < d → 0 < k → 0 < (k + d - 1) / d
ceil_pos k d h g = (le-div_iff_mul-le h).1 (omega arith)

-- The parts of a difference that is known
difference :
    (a b g : ℤ)
    → a -ℤ b ≡ g
    → pos_part g + neg_part a + pos_part b ≡ neg_part g + pos_part a + neg_part b
difference a b g e = rw (← e) (-ℤ_parts a b)

-- What is missing up to the target is covered by whole units, by none too many.
missing :
    (target have g : ℤ) (d : ℕ)
    → 0 < d
    → ltb_ℤ have target ≡ true
    → target -ℤ have ≡ g
    → (0 < pos_part (ceil_div g d))
      × (target ≤ℤ have +ℤ pos (pos_part (ceil_div g d) * d))
      × (have +ℤ pos (pos_part (ceil_div g d) * d) ≤ℤ target +ℤ pos (d - 1))
unfolding ceil_div
missing target have (negsuc k) d h low e =
    let parts = difference target have (negsuc k) e in absurd (ground arith)
missing target have (pos k) d h low e =
    let parts = difference target have (pos k) e in
    let b = ceil_bounds k d h in
    let more : 0 < k = ground arith in
    (ceil_pos k d h more, omega (int_laws, b.0, b.1), omega (int_laws, b.0, b.1))

above :
    (x y : ℕ) (s have : ℤ) → x ≤ y → ltb_ℤ have (pos x +ℤ s) ≡ true → ltb_ℤ have (pos y +ℤ s) ≡ true
above x y s have h low = ground (arith, +ℤ_parts (pos x) s, +ℤ_parts (pos y) s)

both : (a b : Bool) → a && b ≡ true → (a ≡ true) × (b ≡ true)
both a b h = ground arith

not_below_zero : (m : ℕ) → ltb_ℤ (pos 0) (negsuc m) ≡ true → ⊥
not_below_zero m h = ground arith

-- With a demand, the target is above the reorder point.
raised :
    (lead review : ℕ) (mean s have : ℤ)
    → ltb_ℤ (pos 0) mean && ltb_ℤ have (mean *ℤ pos lead +ℤ s) ≡ true
    → ltb_ℤ have (mean *ℤ pos (lead + review) +ℤ s) ≡ true
raised lead review (pos m) s have h =
    let low : ltb_ℤ have (pos m *ℤ pos lead +ℤ s) ≡ true = (both (ltb_ℤ (pos 0) (pos m)) _ h).1 in
    rw (pos_mul m (lead + review)) (
      above (m * lead) (m * (lead + review)) s have (mul-le-mul_left m (omega arith))
        (rw (pos_mul m lead) at low))
raised lead review (negsuc m) s have h = absurd (not_below_zero m (both _ _ h).0)

square_pos : (n : ℕ) → 0 < n → 0 < n * n
square_pos n h = omega (arith, mul-le-mul_left {m = 1} {n = n} n h)

module _ (one : ℕ) (safety : Steps → ℕ → ℤ) (lead review : ℕ) where
  abbrev pub target : DemandStat → ℤ
  target stat = order_up_to one safety lead review stat

  -- A product without demand, or that is not below its reorder point, is not ordered. For any other
  -- at least one unit is, the units reach the order-up-to level together with what is available, and
  -- one unit less would not.
  pub to_order-Covered :
      (stat : DemandStat) (available : Steps)
      → 0 < one
      → ((is_low one safety lead review stat available ≡ false)
          × (to_order one safety lead review stat available ≡ 0))
        ⊎ ((is_low one safety lead review stat available ≡ true)
            × (0 < to_order one safety lead review stat available)
            × (target stat
                ≤ℤ available *ℤ pos one
                  +ℤ pos (to_order one safety lead review stat available * (one * one)))
            × (available *ℤ pos one
                  +ℤ pos (to_order one safety lead review stat available * (one * one))
                ≤ℤ target stat +ℤ pos (one * one - 1)))
  unfolding to_order is_low reorder_point order_up_to
  to_order-Covered stat available h =
      elim (Bool-cases (is_low one safety lead review stat available)) [
        | inr enough ↦ inl (enough, rw enough refl)
        | inl low ↦ let o = ordered low in inr (low, o.0, o.1, o.2)
      ]
    where
      ordered :
          is_low one safety lead review stat available ≡ true
          → (0 < to_order one safety lead review stat available)
            × (target stat
                ≤ℤ available *ℤ pos one
                  +ℤ pos (to_order one safety lead review stat available * (one * one)))
            × (available *ℤ pos one
                  +ℤ pos (to_order one safety lead review stat available * (one * one))
                ≤ℤ target stat +ℤ pos (one * one - 1))
      ordered low = rw low (
          missing (target stat) (available *ℤ pos one) (target stat -ℤ available *ℤ pos one)
            (one * one) (square_pos one h)
            (raised lead review stat.daily_mean (safety_of one safety lead review stat)
              (available *ℤ pos one) low)
            refl)
