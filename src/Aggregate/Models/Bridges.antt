-- ===== src/Aggregate/Models/Bridges.antt =====
-- The profit bridge of chic/aggregate/models.py.
use chic_mcp.Prelude.{ℕ, List, String}
use chic_mcp.Aggregate.Money.{Money, Steps}

-- `BridgeDriver`
pub record BridgeDriver : Type 0 where
  pub name : String
  pub kind : String
  pub qty_a : Steps
  pub qty_b : Steps
  pub profit_a : Money
  pub profit_b : Money
  pub delta : Money
  pub price_effect : Money
  pub cost_effect : Money
  pub qty_effect : Money

-- `ProfitBridge`
pub record ProfitBridge : Type 0 where
  pub profit_a : Money
  pub profit_b : Money
  pub delta : Money
  pub price_effect : Money
  pub cost_effect : Money
  pub volume_effect : Money
  pub mix_effect : Money
  pub new_products_effect : Money
  pub discontinued_effect : Money
  pub rounding : Money
  pub common_count : ℕ
  pub new_count : ℕ
  pub discontinued_count : ℕ
  pub top_drivers : List BridgeDriver
