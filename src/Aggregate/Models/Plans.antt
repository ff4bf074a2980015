-- ===== src/Aggregate/Models/Plans.antt =====
-- The purchase plan of chic/aggregate/models.py.
use chic_mcp.Prelude.{ℕ, String}
use chic_mcp.Aggregate.Money.{Money, Hundredths}

-- `PurchasePlanItem`
pub record PurchasePlanItem : Type 0 where
  pub name : String
  pub code : String
  pub available : Hundredths
  pub daily_demand : Hundredths
  pub demand_std : Hundredths
  pub source : String
  pub days_of_cover : Hundredths
  pub safety_stock : Hundredths
  pub reorder_point : Hundredths
  pub to_order : ℕ
  pub order_value : Money

-- `PurchasePlanTotals`
pub record PurchasePlanTotals : Type 0 where
  pub count : ℕ
  pub need_order : ℕ
  pub order_value : Money
