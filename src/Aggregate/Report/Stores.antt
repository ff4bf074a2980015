-- ===== src/Aggregate/Report/Stores.antt =====
-- `stock_by_store` of chic/aggregate/report.py: the rows of all products pivoted to one line for
-- each store. Lines are in steps while they are summed and in hundredths once they are rounded.
use chic_mcp.Prelude.{
  ℕ, suc, Bool, false, ◌||◌, not, none, some, List, [], ◌∷◌, map, String, length, ◌==◌, nat_eq,
  string_eq, if◌then◌else◌,
}
use chic_mcp.Prelude.Int.{pos, abs, ◌+ℤ◌, ◌-ℤ◌, sum_ℤ}
use chic_mcp.Prelude.Dict.{Dict, get, put}
use chic_mcp.Moysklad.Models.Entities.{StoreStock, StockByStoreRow}
use chic_mcp.Aggregate.Money.{Steps, round2}
use chic_mcp.Aggregate.Models.Lines.{StoreStockLine}
use chic_mcp.Aggregate.Models.Totals.{StoreStockTotals}
use chic_mcp.Aggregate.Envelope.{Report, descending}

is_zero : Steps → Bool
is_zero v = abs v == 0

new_line : String → StoreStockLine
new_line name = record {
  store = name;
  positions = 0;
  units = pos 0;
  reserve = pos 0;
  available = pos 0;
}

-- The updates of a line
add_stock : StoreStock Steps → StoreStockLine → StoreStockLine
unfolding is_zero
add_stock s line = record {
  store = line.store;
  positions =
      if not (is_zero s.stock) || not (is_zero s.reserve) || not (is_zero s.in_transit)
      then suc line.positions
      else line.positions;
  units = line.units +ℤ s.stock;
  reserve = line.reserve +ℤ s.reserve;
  available = line.available +ℤ (s.stock -ℤ s.reserve);
}

-- The inner loop
unfoldable pub pivot_row :
    List (StoreStock Steps) → Dict String StoreStockLine → Dict String StoreStockLine
unfolding add_stock new_line
pivot_row [] agg = agg
pivot_row (s ∷ stores) agg = pivot_row stores (
    put agg s.name (elim (get agg s.name) as (λ x. StoreStockLine) [
      | none ↦ add_stock s (new_line s.name)
      | some line ↦ add_stock s line
    ]))

unfoldable pub pivot :
    List (StockByStoreRow Steps) → Dict String StoreStockLine → Dict String StoreStockLine
pivot [] agg = agg
pivot (row ∷ rows) agg = pivot rows (pivot_row row.stock_by_store agg)

round_line : ℕ → StoreStockLine → StoreStockLine
round_line one line = record {
  store = line.store;
  positions = line.positions;
  units = round2 one line.units;
  reserve = round2 one line.reserve;
  available = round2 one line.available;
}

-- `sum` of fields that are rounded already, so `round2` of it changes nothing.
unfoldable pub stock_by_store :
    ℕ → List (StockByStoreRow Steps) → Report StoreStockLine StoreStockTotals
unfolding round_line
stock_by_store one rows =
    let lines = map (round_line one) (descending (λ x. x.units) (map (λ e. e.1) (pivot rows []))) in
    record {
      totals = record {
        stores = length lines;
        units = sum_ℤ (λ x. x.units) lines;
        reserve = sum_ℤ (λ x. x.reserve) lines;
        available = sum_ℤ (λ x. x.available) lines;
      };
      row_count = length lines;
      returned = length lines;
      truncated = false;
      rows = lines;
    }
