-- ===== src/History/Snapshot.antt =====
-- The daily capture of chic/history/snapshot.py (`SnapshotService`) over the store, with the answers
-- of the API as values: an answer that is missing is a call that raises, which ends the run and
-- keeps what was committed before it.
pub mod Capture
pub mod Run
use chic_mcp.Prelude.{
  ℕ, ◌+◌, Bool, true, false, Option, none, some, List, [], ◌∷◌, map, String, ◌==◌, string_eq,
  if◌then◌else◌,
}
use chic_mcp.Prelude.Int.{ℤ}
use chic_mcp.Prelude.Dict.{Dict, put}
use chic_mcp.Moysklad.Models.Reports.{StockRow, ProfitByProductRow}
use chic_mcp.Aggregate.Report.Rows.{product_key}
use chic_mcp.History.Days.{sales_days}
use chic_mcp.History.Store.{
  StockSnapshot, SalesSnapshot, History, save_stock, save_sales, mark_sales_captured,
  latest_sales_date, has_stock,
}

module _ (N : Type 0) where
  -- What the API answers in one run.
  pub record Source : Type 0 where
    pub get_stock : Option (List (StockRow N))
    pub profit_by_product : ℕ → Option (List (ProfitByProductRow N))

module _ {N : Type 0} (to_int : N → ℤ) where
  -- `_stock_row`, with `int` a parameter
  unfoldable pub stock_row : StockRow N → String × StockSnapshot N
  stock_row r = (
    product_key r.meta.href r.name,
    record {
      name = r.name;
      code = r.code;
      stock = r.stock;
      reserve = r.reserve;
      in_transit = r.in_transit;
      price_minor = r.price;
      sale_price_minor = r.sale_price;
      stock_days = to_int r.stock_days;
    },
  )

-- `_sales_row`
unfoldable pub sales_row : {N : Type 0} → ProfitByProductRow N → String × SalesSnapshot N
sales_row r = (
  product_key r.assortment.meta.href r.assortment.name,
  record {
    name = r.assortment.name;
    code = r.assortment.code;
    sell_quantity = r.sell_quantity;
    sell_sum_minor = r.sell_sum;
    sell_cost_minor = r.sell_cost_sum;
    profit_minor = r.profit;
    return_quantity = r.return_quantity;
    return_sum_minor = r.return_sum;
  },
)

by_key : {R : Type 0} → List (String × R) → Dict String R → Dict String R
by_key [] m = m
by_key ((k, row) ∷ rows) m = by_key rows (put m k row)

-- `_dedupe`
unfoldable pub dedupe : {R : Type 0} → List (String × R) → List (String × R)
unfolding by_key
dedupe rows = by_key rows []

-- What a run returns, or nothing if a call raised, and the store it leaves.
abbrev pub Ran : Type 0 → Type 0
Ran N = Option ℕ × History N

module _ {N : Type 0} where
  unfoldable pub then_add : ℕ → Ran N → Ran N
  then_add n (none, h) = (none, h)
  then_add n (some written, h) = (some (n + written), h)

  -- The days of the loop of `capture` that are left, `_capture_sales` being one turn.
  unfoldable pub capture_days : Source N → List ℕ → History N → Ran N
  capture_days api [] h = (some 0, h)
  capture_days api (day ∷ days) h = elim (api.profit_by_product day) as (λ x. Ran N) [
    | none ↦ (none, h)
    | some rows ↦
        let saved = save_sales day (dedupe (map sales_row rows)) h in
        then_add (saved.0) (capture_days api days (mark_sales_captured day (saved.0) (saved.1)))
  ]

  module _ (to_int : N → ℤ) where
    -- `_capture_stock`
    unfoldable pub capture_stock : Source N → ℕ → History N → Ran N
    capture_stock api date h = elim api.get_stock as (λ x. Ran N) [
      | none ↦ (none, h)
      | some rows ↦
          let saved = save_stock date (dedupe (map (stock_row to_int) rows)) h in
          (some (saved.0), saved.1)
    ]

    capture_sales_after : Source N → ℕ → ℤ → Ran N → Ran N
    capture_sales_after api now max_backfill_days (none, h) = (none, h)
    capture_sales_after api now max_backfill_days (some written, h) =
        then_add written
          (capture_days api (sales_days now max_backfill_days (latest_sales_date h)) h)

    -- `capture`
    unfoldable pub capture : Source N → ℕ → ℤ → History N → Ran N
    unfolding capture_sales_after
    capture api now max_backfill_days h =
        capture_sales_after api now max_backfill_days
          (if has_stock now h then (some 0, h) else capture_stock api now h)
