-- ===== src/Aggregate/Models/Lines.antt =====
-- The lines of the reports of chic/aggregate/models.py.
use chic_mcp.Prelude.{ℕ, Bool, List, String}
use chic_mcp.Prelude.Int.{ℤ}
use chic_mcp.Aggregate.Money.{Money, Hundredths, Steps}

-- `DashboardSummary`
pub record DashboardSummary : Type 0 where
  pub period : String
  pub sales_count : ℤ
  pub sales_amount : Money
  pub sales_delta_vs_prev : Money
  pub orders_count : ℤ
  pub orders_amount : Money
  pub money_income : Money
  pub money_outcome : Money
  pub money_balance : Money

-- `ProductSummary`
pub record ProductSummary : Type 0 where
  pub id : String
  pub name : String
  pub code : String
  pub article : String
  pub archived : Bool
  pub sale_price : Money
  pub buy_price : Money

-- `ProfitProductLine`
pub record ProfitProductLine : Type 0 where
  pub id : String
  pub name : String
  pub code : String
  pub sell_quantity : Steps
  pub revenue : Money
  pub cost : Money
  pub return_sum : Money
  pub profit : Money
  pub margin_pct : Hundredths

-- `ProfitEntityLine`
pub record ProfitEntityLine : Type 0 where
  pub name : String
  pub revenue : Money
  pub cost : Money
  pub profit : Money
  pub sales_count : ℤ
  pub avg_check : Money
  pub margin_pct : Hundredths

-- `TurnoverLine`
pub record TurnoverLine : Type 0 where
  pub name : String
  pub start_qty : Steps
  pub income_qty : Steps
  pub outcome_qty : Steps
  pub end_qty : Steps
  pub end_value : Money
  pub turnover_days : Hundredths

-- `StockLine`
pub record StockLine : Type 0 where
  pub id : String
  pub name : String
  pub code : String
  pub article : String
  pub stock : Steps
  pub reserve : Steps
  pub available : Steps
  pub in_transit : Steps
  pub cost_price : Money
  pub sale_price : Money
  pub stock_value : Money
  pub stock_days : ℤ

-- `CounterpartyMetric`
pub record CounterpartyMetric : Type 0 where
  pub name : String
  pub first_demand : String
  pub last_demand : String
  pub demands_count : ℤ
  pub revenue : Money
  pub avg_receipt : Money
  pub returns_sum : Money
  pub balance : Money
  pub profit : Money

-- `MoneyFlowPoint`
pub record MoneyFlowPoint : Type 0 where
  pub date : String
  pub income : Money
  pub outcome : Money
  pub balance : Money

-- `MoneyFlow`
pub record MoneyFlow : Type 0 where
  pub income : Money
  pub outcome : Money
  pub net : Money
  pub series : List MoneyFlowPoint

-- `EntityRefOut`
pub record EntityRefOut : Type 0 where
  pub id : String
  pub name : String
  pub code : String
  pub archived : Bool
  pub description : String
  pub path_name : String
  pub inn : String

-- `StateOut`
pub record StateOut : Type 0 where
  pub id : String
  pub name : String
  pub type : String
  pub entity_type : String

-- `AssortmentLine`
pub record AssortmentLine : Type 0 where
  pub id : String
  pub kind : String
  pub name : String
  pub code : String
  pub article : String
  pub sale_price : Money
  pub buy_price : Money
  pub stock : Steps

-- `StoreStockLine`
pub record StoreStockLine : Type 0 where
  pub store : String
  pub positions : ℕ
  pub units : Hundredths
  pub reserve : Hundredths
  pub available : Hundredths

-- `SalesSeriesPointOut`
pub record SalesSeriesPointOut : Type 0 where
  pub date : String
  pub quantity : Steps
  pub sum : Money

-- `SalesSeriesOut`
pub record SalesSeriesOut : Type 0 where
  pub kind : String
  pub total_quantity : Hundredths
  pub total_sum : Money
  pub series : List SalesSeriesPointOut

-- `AuditLine`
pub record AuditLine : Type 0 where
  pub moment : String
  pub employee : String
  pub entity_type : String
  pub event_type : String
  pub object_count : ℤ
  pub source : String
