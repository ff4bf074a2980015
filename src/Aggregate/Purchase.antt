-- ===== src/Aggregate/Purchase.antt =====
-- The purchase plan of chic/aggregate/purchase.py. Quantities, demands and days are steps of 1/`one`,
-- their products steps of 1/`one`². `safety` is z(service_level) · σ · √lead, in the latter, of a
-- deviation and a lead time.
pub mod Covered
mod Tests
use chic_mcp.Prelude.{
  ℕ, suc, ◌+◌, ◌-◌, ◌*◌, ◌/◌, Bool, true, false, ◌&&◌, Option, none, some, List, [], ◌∷◌, map,
  String, length, count, ltb, ◌==◌, string_eq, if◌then◌else◌,
}
use chic_mcp.Prelude.Int.{ℤ, pos, negsuc, pos_part, neg, ◌+ℤ◌, ◌-ℤ◌, ◌*ℤ◌, ltb_ℤ, sum_ℤ}
use chic_mcp.Prelude.Dict.{Dict, get}
use chic_mcp.Aggregate.Money.{Money, Hundredths, Steps, round_div, round2}
use chic_mcp.Aggregate.Models.Lines.{StockLine}
use chic_mcp.Aggregate.Models.Plans.{PurchasePlanItem, PurchasePlanTotals}
use chic_mcp.Aggregate.Envelope.{Report, report, descending}

-- `DemandStat`
pub record DemandStat : Type 0 where
  pub daily_mean : Steps
  pub daily_std : Steps
  pub source : String

-- `demand.get(line.id, DemandStat(0.0, 0.0, "none"))`
stat_of : Dict String DemandStat → String → DemandStat
stat_of demand id = elim (get demand id) as (λ x. DemandStat) [
  | some stat ↦ stat
  | none ↦ record { daily_mean = pos 0; daily_std = pos 0; source = "none" }
]

-- `math.ceil(x / d)`
unfoldable pub ceil_div : ℤ → ℕ → ℤ
ceil_div (pos n) d = pos ((n + d - 1) / d)
ceil_div (negsuc n) d = neg (pos (suc n / d))

module _ (one : ℕ) (safety : Steps → ℕ → ℤ) (lead review : ℕ) where
  -- `safety`, `rop` and `order_up_to`
  unfoldable pub safety_of : DemandStat → ℤ
  safety_of stat = if ltb_ℤ (pos 0) stat.daily_mean then safety stat.daily_std lead else pos 0

  unfoldable pub reorder_point : DemandStat → ℤ
  reorder_point stat = stat.daily_mean *ℤ pos lead +ℤ safety_of stat

  unfoldable pub order_up_to : DemandStat → ℤ
  order_up_to stat = stat.daily_mean *ℤ pos (lead + review) +ℤ safety_of stat

  -- `mu > 0 and available < rop`
  unfoldable pub is_low : DemandStat → Steps → Bool
  is_low stat available =
      ltb_ℤ (pos 0) stat.daily_mean && ltb_ℤ (available *ℤ pos one) (reorder_point stat)

  unfoldable pub to_order : DemandStat → Steps → ℕ
  to_order stat available =
      if is_low stat available
      then pos_part (ceil_div (order_up_to stat -ℤ available *ℤ pos one) (one * one))
      else 0

  days_of_cover : DemandStat → Steps → Hundredths
  days_of_cover stat available =
      if ltb_ℤ (pos 0) stat.daily_mean
      then round_div (available *ℤ pos 100) stat.daily_mean
      else negsuc 99

  -- The item of a line
  unfoldable pub plan_item : Dict String DemandStat → StockLine → PurchasePlanItem
  unfolding stat_of days_of_cover
  plan_item demand line =
      let stat = stat_of demand line.id in
      let available = line.available +ℤ line.in_transit in
      record {
        name = line.name;
        code = line.code;
        available = round2 one available;
        daily_demand = round2 one stat.daily_mean;
        demand_std = round2 one stat.daily_std;
        source = stat.source;
        days_of_cover = days_of_cover stat available;
        safety_stock = round2 (one * one) (safety_of stat);
        reorder_point = round2 (one * one) (reorder_point stat);
        to_order = to_order stat available;
        order_value = pos (to_order stat available) *ℤ line.cost_price;
      }

-- `purchase_plan`: negative lead times and review periods count as 0.
unfoldable pub purchase_plan :
    ℕ
    → (Steps → ℕ → ℤ)
    → List StockLine
    → Dict String DemandStat
    → Steps
    → Steps
    → ℤ
    → Report PurchasePlanItem PurchasePlanTotals
purchase_plan one safety stock demand lead_time_days review_period_days limit =
    let items =
      descending (λ (it : PurchasePlanItem). pos it.to_order)
        (map (plan_item one safety (pos_part lead_time_days) (pos_part review_period_days) demand)
          stock) in
    let totals : PurchasePlanTotals = record {
      count = length items;
      need_order = count (λ (it : PurchasePlanItem). ltb 0 it.to_order) items;
      order_value = sum_ℤ (λ it. it.order_value) items;
    } in
    report totals items limit
