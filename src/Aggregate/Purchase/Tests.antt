-- ===== src/Aggregate/Purchase/Tests.antt =====
-- chic/aggregate/purchase.py: runs at concrete inputs.
use chic_mcp.Prelude.{ℕ, ◌*◌, ◌-◌, ◌<◌, ◌≡◌, ◌⊎◌, refl, arith, true, false}
use chic_mcp.Prelude.Int.{ℤ, pos, ◌+ℤ◌, ◌-ℤ◌, ◌*ℤ◌, ◌≤ℤ◌}
use chic_mcp.Aggregate.Money.{Steps}
use chic_mcp.Aggregate.Purchase.{
  DemandStat, is_low, to_order, ceil_div, reorder_point, order_up_to, safety_of,
}
use chic_mcp.Aggregate.Purchase.Covered.{target, to_order-Covered}

-- Two and a half units a day, with tenths
abbrev brisk : DemandStat
brisk = record { daily_mean = pos 25; daily_std = pos 10; source = "history" }

abbrev spare : Steps → ℕ → ℤ
spare std lead = pos 430

ordered : to_order 10 spare 70 70 brisk (pos 30) ≡ 37
unfolding to_order is_low ceil_div reorder_point order_up_to safety_of ◌+ℤ◌ ◌-ℤ◌ ◌*ℤ◌
ordered = refl

to_order-Covered_example :
    ((is_low 10 spare 70 70 brisk (pos 30) ≡ false) × (to_order 10 spare 70 70 brisk (pos 30) ≡ 0))
    ⊎ ((is_low 10 spare 70 70 brisk (pos 30) ≡ true)
        × (0 < to_order 10 spare 70 70 brisk (pos 30))
        × (target 10 spare 70 70 brisk
            ≤ℤ pos 30 *ℤ pos 10 +ℤ pos (to_order 10 spare 70 70 brisk (pos 30) * (10 * 10)))
        × (pos 30 *ℤ pos 10 +ℤ pos (to_order 10 spare 70 70 brisk (pos 30) * (10 * 10))
            ≤ℤ target 10 spare 70 70 brisk +ℤ pos (10 * 10 - 1)))
to_order-Covered_example = to_order-Covered 10 spare 70 70 brisk (pos 30) (omega arith)
