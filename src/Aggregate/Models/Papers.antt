-- ===== src/Aggregate/Models/Papers.antt =====
-- The documents of chic/aggregate/models.py.
use chic_mcp.Prelude.{Bool, List, String}
use chic_mcp.Prelude.Int.{ℤ}
use chic_mcp.Prelude.Dict.{Dict}
use chic_mcp.Prelude.Json.{Json}
use chic_mcp.Aggregate.Money.{Money, Steps}

-- `DocumentSummary`
pub record DocumentSummary : Type 0 where
  pub id : String
  pub name : String
  pub moment : String
  pub sum : Money
  pub paid : Money
  pub counterparty : String
  pub state : String
  pub store : String
  pub channel : String
  pub currency : String
  pub applicable : Bool

-- `PositionRow`
pub record PositionRow : Type 0 where
  pub name : String
  pub code : String
  pub quantity : Steps
  pub price : Money
  pub discount : Steps
  pub vat : ℤ
  pub total : Money

-- `DocumentDetail`: `summary` holds the fields that it inherits.
pub record DocumentDetail : Type 0 where
  pub summary : DocumentSummary
  pub description : String
  pub vat_sum : Money
  pub payment_due_date : String
  pub positions : List PositionRow
  pub attributes : Dict String Json

-- `DocumentTotals`
pub record DocumentTotals : Type 0 where
  pub sum : Money
  pub paid : Money
