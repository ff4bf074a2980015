-- ===== src/Aggregate/Models/Totals.antt =====
-- The totals of the reports of chic/aggregate/models.py.
use chic_mcp.Prelude.{ℕ}
use chic_mcp.Prelude.Int.{ℤ}
use chic_mcp.Aggregate.Money.{Money, Hundredths}

-- `ProfitTotals`
pub record ProfitTotals : Type 0 where
  pub revenue : Money
  pub cost : Money
  pub profit : Money
  pub return_sum : Money
  pub sell_quantity : Hundredths
  pub sales_count : ℤ
  pub margin_pct : Hundredths

-- `TurnoverTotals`
pub record TurnoverTotals : Type 0 where
  pub income_qty : Hundredths
  pub outcome_qty : Hundredths
  pub end_value : Money

-- `StockTotals`
pub record StockTotals : Type 0 where
  pub units : Hundredths
  pub available : Hundredths
  pub stock_value : Money

-- `CounterpartyTotals`
pub record CounterpartyTotals : Type 0 where
  pub revenue : Money
  pub profit : Money
  pub returns_sum : Money
  pub balance : Money
  pub margin_pct : Hundredths

-- `StoreStockTotals`
pub record StoreStockTotals : Type 0 where
  pub stores : ℕ
  pub units : Hundredths
  pub reserve : Hundredths
  pub available : Hundredths
