-- ===== src/Moysklad/Models/Reports.antt =====
-- The rows of the reports of chic/moysklad/models.py; amounts are in minor units and `N` is the
-- type of floats.
use chic_mcp.Prelude.{Option, none, some, List, String}
use chic_mcp.Prelude.Int.{ℤ}
use chic_mcp.Moysklad.Models.Entities.{Meta, NamedRef}

-- `DashboardCount`
pub record DashboardCount (N : Type 0) : Type 0 where
  pub count : ℤ
  pub amount : N
  pub movement_amount : N

-- `DashboardMoney`
pub record DashboardMoney (N : Type 0) : Type 0 where
  pub income : N
  pub outcome : N
  pub balance : N
  pub today_movement : N
  pub movement : N

-- `Dashboard`
pub record Dashboard (N : Type 0) : Type 0 where
  pub sales : DashboardCount N
  pub orders : DashboardCount N
  pub money : DashboardMoney N

-- `ProfitByProductRow`
pub record ProfitByProductRow (N : Type 0) : Type 0 where
  pub assortment : NamedRef
  pub sell_quantity : N
  pub sell_sum : N
  pub sell_cost_sum : N
  pub return_quantity : N
  pub return_sum : N
  pub return_cost_sum : N
  pub profit : N
  pub margin : N
  pub sales_margin : N

-- `ProfitByEntityRow`
pub record ProfitByEntityRow (N : Type 0) : Type 0 where
  pub counterparty : Option NamedRef
  pub employee : Option NamedRef
  pub sales_channel : Option NamedRef
  pub sell_sum : N
  pub sell_cost_sum : N
  pub return_sum : N
  pub return_cost_sum : N
  pub sales_count : ℤ
  pub sales_avg_check : N
  pub return_count : ℤ
  pub profit : N
  pub margin : N
  pub sales_margin : N

-- `TurnoverMeasure`
pub record TurnoverMeasure (N : Type 0) : Type 0 where
  pub quantity : N
  pub sum : N

-- `TurnoverRow`
pub record TurnoverRow (N : Type 0) : Type 0 where
  pub assortment : NamedRef
  pub on_period_start : TurnoverMeasure N
  pub income : TurnoverMeasure N
  pub outcome : TurnoverMeasure N
  pub on_period_end : TurnoverMeasure N

-- `StockRow`
pub record StockRow (N : Type 0) : Type 0 where
  pub meta : Meta
  pub name : String
  pub code : String
  pub article : String
  pub price : N
  pub sale_price : N
  pub stock : N
  pub reserve : N
  pub in_transit : N
  pub quantity : N
  pub stock_days : N

-- `CounterpartyRow`
pub record CounterpartyRow (N : Type 0) : Type 0 where
  pub counterparty : NamedRef
  pub first_demand_date : String
  pub last_demand_date : String
  pub demands_count : ℤ
  pub demands_sum : N
  pub average_receipt : N
  pub returns_count : ℤ
  pub returns_sum : N
  pub discounts_sum : N
  pub balance : N
  pub profit : N
  pub last_event_date : String

-- `MoneySeriesPoint`
pub record MoneySeriesPoint (N : Type 0) : Type 0 where
  pub date : String
  pub credit : N
  pub debit : N
  pub balance : N

-- `MoneySeries`
pub record MoneySeries (N : Type 0) : Type 0 where
  pub credit : N
  pub debit : N
  pub series : List (MoneySeriesPoint N)

-- `SalesSeriesPoint`
pub record SalesSeriesPoint (N : Type 0) : Type 0 where
  pub date : String
  pub quantity : N
  pub sum : N

-- `SalesSeries`
pub record SalesSeries (N : Type 0) : Type 0 where
  pub series : List (SalesSeriesPoint N)

-- `AuditRow`
pub record AuditRow : Type 0 where
  pub id : String
  pub moment : String
  pub uid : String
  pub source : String
  pub entity_type : String
  pub event_type : String
  pub object_count : ℤ

-- `ProfitByEntityRow.holder_name`
unfoldable pub holder_name : {N : Type 0} → ProfitByEntityRow N → String
holder_name r = elim r.counterparty [
  | some c ↦ c.name
  | none ↦ elim r.employee [
    | some e ↦ e.name
    | none ↦ elim r.sales_channel [ some s ↦ s.name | none ↦ "" ]
  ]
]
