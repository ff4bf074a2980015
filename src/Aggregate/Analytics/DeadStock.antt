-- ===== src/Aggregate/Analytics/DeadStock.antt =====
-- Dead stock of chic/aggregate/analytics.py. Quantities and days are in steps of 1/`one`.
use chic_mcp.Prelude.{
  ℕ, Bool, true, false, ◌||◌, Option, none, some, List, [], ◌∷◌, ◌++◌, String, length, string_eq,
  if◌then◌else◌,
}
use chic_mcp.Prelude.Int.{ℤ, pos, ◌*ℤ◌, leb_ℤ, ltb_ℤ, sum_ℤ}
use chic_mcp.Prelude.Dict.{Dict, get}
use chic_mcp.Moysklad.Models.Reports.{StockRow}
use chic_mcp.Aggregate.Money.{Steps}
use chic_mcp.Aggregate.Models.Lines.{StockLine}
use chic_mcp.Aggregate.Models.Findings.{DeadStockTotals}
use chic_mcp.Aggregate.Envelope.{Report, report, descending}
use chic_mcp.Aggregate.Report.Rows.{stock_line}
pub mod Moved

-- `DeadStockLine`, a `StockLine` with one more field
pub record DeadStockLine : Type 0 where
  pub line : StockLine
  pub outcome_qty : Steps

-- `outcome_by_ref[r.meta.href]`, if there are outcomes and this one is among them
unfoldable pub outcome_of : Option (Dict String Steps) → String → Option Steps
outcome_of none href = none
outcome_of (some outcomes) href = get outcomes href

module _ (one : ℕ) (outcome_by_ref : Option (Dict String Steps)) (threshold_days : ℤ) where
  -- What the loop appends for a row
  unfoldable pub dead_line : StockRow Steps → List DeadStockLine
  dead_line r =
      if leb_ℤ r.stock (pos 0) || ltb_ℤ r.stock_days (threshold_days *ℤ pos one)
      then []
      else elim (outcome_of outcome_by_ref r.meta.href) as (λ x. List DeadStockLine) [
        | none ↦ record { line = stock_line one r; outcome_qty = pos 0 } ∷ []
        | some outcome ↦
            if ltb_ℤ (pos 0) outcome
            then []
            else record { line = stock_line one r; outcome_qty = outcome } ∷ []
      ]

  unfoldable pub dead_lines : List (StockRow Steps) → List DeadStockLine
  unfolding dead_line
  dead_lines [] = []
  dead_lines (r ∷ rows) = dead_line r ++ dead_lines rows

  unfoldable pub dead_stock : List (StockRow Steps) → List DeadStockLine
  unfolding dead_lines
  dead_stock rows = descending (λ x. x.line.stock_value) (dead_lines rows)

unfoldable pub dead_stock_report : List DeadStockLine → ℤ → Report DeadStockLine DeadStockTotals
dead_stock_report lines limit =
    let totals : DeadStockTotals = record {
      count = length lines;
      stock_value = sum_ℤ (λ x. x.line.stock_value) lines;
    } in
    report totals lines limit
