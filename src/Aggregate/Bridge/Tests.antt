-- ===== src/Aggregate/Bridge/Tests.antt =====
-- The profit bridge of chic/aggregate/bridge.py: two products in two periods.
use chic_mcp.Prelude.{ℕ, ◌+◌, ◌*◌, ◌≡◌, arith, false, List, [], ◌∷◌, String, length}
use chic_mcp.Prelude.Int.{pos, ◌+ℤ◌}
use chic_mcp.Aggregate.Models.Lines.{ProfitProductLine}
use chic_mcp.Aggregate.Bridge.{by_id, sums, residual, profit_bridge}
use chic_mcp.Aggregate.Bridge.Reconciled.{profit_bridge-Reconciled}

abbrev line : String → ℕ → ℕ → ℕ → ProfitProductLine
line id quantity revenue cost = record {
  id = id;
  name = id;
  code = "";
  sell_quantity = pos (100 * quantity);
  revenue = pos revenue;
  cost = pos cost;
  return_sum = pos 0;
  profit = pos 0;
  margin_pct = pos 0;
}

abbrev before : List ProfitProductLine
before = line "a" 2 1000 600 ∷ line "b" 1 500 100 ∷ []

abbrev after : List ProfitProductLine
after = line "a" 3 1700 800 ∷ line "c" 1 300 200 ∷ []

profit_bridge-Reconciled_example :
    (residual 1 (sums 1 (by_id before) (by_id after)) ≡ pos 0)
    × ((profit_bridge 1 before after (pos 2)).1 ≡ false)
    × (let r = (profit_bridge 1 before after (pos 2)).0 in
        r.price_effect +ℤ r.cost_effect +ℤ r.volume_effect +ℤ r.mix_effect +ℤ r.new_products_effect
          +ℤ r.discontinued_effect +ℤ r.rounding
        ≡ r.delta)
    × ((profit_bridge 1 before after (pos 2)).0.common_count
          + (profit_bridge 1 before after (pos 2)).0.discontinued_count
        ≡ length (by_id before))
profit_bridge-Reconciled_example = profit_bridge-Reconciled 1 before after (pos 2) (omega arith)
