-- ===== src/Aggregate/Models/Findings.antt =====
-- The results of the analyses of chic/aggregate/models.py.
use chic_mcp.Prelude.{ℕ, Bool, List, String}
use chic_mcp.Prelude.Int.{ℤ}
use chic_mcp.Aggregate.Money.{Money, Hundredths}

-- `AbcItem`
pub record AbcItem : Type 0 where
  pub name : String
  pub value : Money
  pub share : Hundredths
  pub cumulative_share : Hundredths
  pub abc_class : String

-- `AbcTotals`
pub record AbcTotals : Type 0 where
  pub count : ℕ
  pub value : Money
  pub a_count : ℕ
  pub b_count : ℕ
  pub c_count : ℕ

-- `CounterpartySegment`
pub record CounterpartySegment : Type 0 where
  pub name : String
  pub segments : List String
  pub revenue : Money
  pub avg_receipt : Money
  pub profit : Money
  pub balance : Money
  pub days_since_last_purchase : ℤ

-- `SegmentTotals`
pub record SegmentTotals : Type 0 where
  pub count : ℕ
  pub vip : ℕ
  pub sleeping : ℕ
  pub at_risk : ℕ
  pub low_check : ℕ
  pub debtor : ℕ
  pub negative_margin : ℕ

-- `DeadStockTotals`
pub record DeadStockTotals : Type 0 where
  pub count : ℕ
  pub stock_value : Money

-- `Change`
pub record Change : Type 0 where
  pub key : String
  pub value_a : Money
  pub value_b : Money
  pub delta : Money
  pub delta_pct : Hundredths

-- `Comparison`
pub record Comparison : Type 0 where
  pub total_a : Money
  pub total_b : Money
  pub delta : Money
  pub delta_pct : Hundredths
  pub top_gainers : List Change
  pub top_decliners : List Change

-- `AgingBucket`
pub record AgingBucket : Type 0 where
  pub label : String
  pub count : ℕ
  pub amount : Money

-- `AgingItem`
pub record AgingItem : Type 0 where
  pub document : String
  pub counterparty : String
  pub due_date : String
  pub outstanding : Money
  pub days_overdue : ℤ

-- `Aging`
pub record Aging : Type 0 where
  pub total_outstanding : Money
  pub total_overdue : Money
  pub buckets : List AgingBucket
  pub item_count : ℕ
  pub items_truncated : Bool
  pub items : List AgingItem
