-- ===== src/Usecases.antt =====
-- chic/usecases.py: what the tools fetch and compute. An answer of the API that is missing is a call
-- that raises; dates are ordinals. `rows` of the demand statistics stand for the query of
-- chic/history/olap.py.
pub mod Demand
mod Tests
use chic_mcp.Prelude.{
  ℕ, ◌-◌, ◌*◌, Bool, true, false, ◌||◌, Option, none, some, List, [], ◌∷◌, map, String, leb, ◌==◌,
  string_eq, if◌then◌else◌,
}
use chic_mcp.Prelude.Int.{ℤ, pos, pos_part, ◌*ℤ◌, leb_ℤ}
use chic_mcp.Prelude.Dict.{Dict, get, put}
use chic_mcp.Moysklad.Models.Reports.{ProfitByProductRow, StockRow, Dashboard}
use chic_mcp.Aggregate.Money.{Steps, round_div}
use chic_mcp.Aggregate.Models.Lines.{ProfitProductLine, DashboardSummary}
use chic_mcp.Aggregate.Models.Bridges.{ProfitBridge}
use chic_mcp.Aggregate.Models.Plans.{PurchasePlanItem, PurchasePlanTotals}
use chic_mcp.Aggregate.Envelope.{Report}
use chic_mcp.Aggregate.Report.Rows.{profit_by_product, stock, dashboard as dashboard_summary}
use chic_mcp.Aggregate.Bridge.{profit_bridge as bridge}
use chic_mcp.Aggregate.Purchase.{DemandStat, purchase_plan}

-- `DemandStats`
pub record DemandStats : Type 0 where
  pub product_href : String
  pub name : String
  pub code : String
  pub days : ℕ
  pub mean_demand : Steps
  pub std_demand : Steps

-- What the API answers
pub record Api : Type 0 where
  pub get_dashboard : String → Option (Dashboard Steps)
  pub get_stock : Option (List (StockRow Steps))
  pub profit_by_dates : String → String → Option (List (ProfitByProductRow Steps))
  pub profit_by_days : ℕ → ℕ → Option (List (ProfitByProductRow Steps))

abbrev pub default_min_days : ℕ
default_min_days = 3

abbrev pub fallback_window_days : ℕ
fallback_window_days = 30

-- The comprehension over the history's statistics
history_stats : Dict String DemandStat → List DemandStats → Dict String DemandStat
history_stats out [] = out
history_stats out (s ∷ rest) =
    history_stats
      (if leb default_min_days s.days
        then put out s.product_href
            (record { daily_mean = s.mean_demand; daily_std = s.std_demand; source = "history" })
        else out)
      rest

is_known : Dict String DemandStat → String → Bool
is_known stats id = elim (get stats id) as (λ x. Bool) [ none ↦ false | some s ↦ true ]

-- The lines of a day's profit by product, or the API's failure
lines_of : ℕ → Option (List (ProfitByProductRow Steps)) → Option (List ProfitProductLine)
lines_of one none = none
lines_of one (some rows) = some (profit_by_product one rows)

-- Two such answers, bridged
bridged :
    ℕ
    → Option (List ProfitProductLine)
    → Option (List ProfitProductLine)
    → ℤ
    → Option (ProfitBridge × Bool)
bridged cent none b top_n = none
bridged cent (some a) none top_n = none
bridged cent (some a) (some b) top_n = some (bridge cent a b top_n)

-- `profit_bridge`, with floats in the steps of the bridge
unfoldable pub profit_bridge :
    Api → ℕ → String → String → String → String → ℤ → Option (ProfitBridge × Bool)
unfolding lines_of bridged
profit_bridge api cent a_from a_to b_from b_to top_n =
    bridged cent (lines_of (100 * cent) (api.profit_by_dates a_from a_to))
      (lines_of (100 * cent) (api.profit_by_dates b_from b_to)) top_n

module _ (one : ℕ) where
  -- `dashboard`
  unfoldable pub dashboard : Api → String → Option DashboardSummary
  dashboard api period = elim (api.get_dashboard period) as (λ x. Option DashboardSummary) [
    | none ↦ none
    | some d ↦ some (dashboard_summary one period d)
  ]

  -- `profit_product_lines`
  unfoldable pub profit_product_lines : Api → String → String → Option (List ProfitProductLine)
  unfolding lines_of
  profit_product_lines api date_from date_to = lines_of one (api.profit_by_dates date_from date_to)

  -- The estimate of a line; a quotient is rounded to a step.
  unfoldable pub estimate : ℤ → ProfitProductLine → DemandStat
  estimate cv line =
      let daily = round_div line.sell_quantity (pos fallback_window_days) in
      record {
        daily_mean = daily;
        daily_std = round_div (daily *ℤ cv) (pos one);
        source = "estimate";
      }

  -- The loop over the fallback's lines
  add_estimates : ℤ → Dict String DemandStat → List ProfitProductLine → Dict String DemandStat
  unfolding estimate is_known
  add_estimates cv stats [] = stats
  add_estimates cv stats (line ∷ lines) =
      add_estimates cv
        (if is_known stats line.id || leb_ℤ line.sell_quantity (pos 0)
          then stats
          else put stats line.id (estimate cv line))
        lines

  -- The demand of each product; a negative `fallback_cv` counts as 0.
  unfoldable pub demand_of :
      Steps → List DemandStats → List ProfitProductLine → Dict String DemandStat
  unfolding history_stats add_estimates
  demand_of fallback_cv stats lines =
      add_estimates (pos (pos_part fallback_cv)) (history_stats [] stats) lines

  planned :
      (Steps → ℕ → ℤ)
      → List DemandStats
      → Steps
      → Steps
      → Steps
      → ℤ
      → Option (List (StockRow Steps))
      → Option (List ProfitProductLine)
      → Option (Report PurchasePlanItem PurchasePlanTotals)
  planned safety stats lead_time_days review_period_days fallback_cv limit none lines = none
  planned safety stats lead_time_days review_period_days fallback_cv limit (some rows) none = none
  planned safety stats lead_time_days review_period_days fallback_cv limit (some rows)
        (some lines) =
      some (
        purchase_plan one safety (stock one rows) (demand_of fallback_cv stats lines) lead_time_days
          review_period_days limit)

  -- `purchase`
  unfoldable pub purchase :
      Api
      → (Steps → ℕ → ℤ)
      → List DemandStats
      → ℕ
      → Steps
      → Steps
      → Steps
      → ℤ
      → Option (Report PurchasePlanItem PurchasePlanTotals)
  unfolding planned lines_of
  purchase api safety stats now lead_time_days review_period_days fallback_cv limit =
      planned safety stats lead_time_days review_period_days fallback_cv limit api.get_stock
        (lines_of one (api.profit_by_days (now - fallback_window_days) now))
