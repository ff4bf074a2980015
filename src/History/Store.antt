-- ===== src/History/Store.antt =====
-- The snapshot store of chic/history/store.py (`HistoryStore`): its three tables, the batched upsert
-- and the reads. A date is its ordinal (see History.Days); `N` is the type of the source's floats.
pub mod Upsert
use chic_mcp.Prelude.{
  ℕ, zero, suc, ◌+◌, max, Bool, true, false, Option, none, some, List, [], ◌∷◌, map, String, length,
  leb, take, drop, filter, any, ◌==◌, nat_eq, string_eq, pair_eq, if◌then◌else◌,
}
use chic_mcp.Prelude.Int.{ℤ}
use chic_mcp.Prelude.Dict.{Dict, put}
use chic_mcp.Prelude.Sort.{sort}
use chic_mcp.History.Days.{Coverage, sales_coverage, to_set}

-- `StockSnapshotRow` without its key
pub record StockSnapshot (N : Type 0) : Type 0 where
  pub name : String
  pub code : String
  pub stock : N
  pub reserve : N
  pub in_transit : N
  pub price_minor : N
  pub sale_price_minor : N
  pub stock_days : ℤ

-- `SalesSnapshotRow` without its key
pub record SalesSnapshot (N : Type 0) : Type 0 where
  pub name : String
  pub code : String
  pub sell_quantity : N
  pub sell_sum_minor : N
  pub sell_cost_minor : N
  pub profit_minor : N
  pub return_quantity : N
  pub return_sum_minor : N

-- The primary key of both tables: `snapshot_date`, `product_href`.
abbrev pub Key : Type 0
Key = ℕ × String

-- history.db
pub record History (N : Type 0) : Type 0 where
  pub stock : Dict Key (StockSnapshot N)
  pub sales : Dict Key (SalesSnapshot N)
  pub captures : Dict ℕ ℕ

-- `_chunks`, over the items that are left.
unfoldable pub chunks {ℓ} : {A : Type ℓ} → ℕ → List A → ℕ → List (List A)
chunks zero items size = []
chunks (suc fuel) [] size = []
chunks (suc fuel) (x ∷ items) size =
    take size (x ∷ items) ∷ chunks fuel (drop size (x ∷ items)) size

-- `insert(model).values(chunk).on_conflict_do_update(...)`
unfoldable pub execute {ℓ} : {R : Type ℓ} → ℕ → List (String × R) → Dict Key R → Dict Key R
execute date [] table = table
execute date ((href, row) ∷ rows) table = execute date rows (put table (date, href) row)

execute_all {ℓ} : {R : Type ℓ} → ℕ → List (List (String × R)) → Dict Key R → Dict Key R
execute_all date [] table = table
execute_all date (chunk ∷ rest) table = execute_all date rest (execute date chunk table)

-- `_upsert`: the number of rows written and the table
unfoldable pub upsert {ℓ} : {R : Type ℓ} → ℕ → List (String × R) → Dict Key R → ℕ × Dict Key R
unfolding chunks execute_all
upsert date [] table = (0, table)
upsert date (r ∷ rows) table =
    (length (r ∷ rows), execute_all date (chunks (length (r ∷ rows)) (r ∷ rows) 500) table)

-- `SELECT max(snapshot_date)`
unfoldable pub latest : List ℕ → Option ℕ
latest [] = none
latest (d ∷ ds) = elim (latest ds) as (λ x. Option ℕ) [ none ↦ some d | some e ↦ some (max d e) ]

-- The column `snapshot_date`
abbrev pub dates {ℓ} : {R : Type ℓ} → Dict Key R → List ℕ
dates [] = []
dates ((k, row) ∷ table) = k.0 ∷ dates table

module _ {N : Type 0} where
  unfoldable pub save_stock : ℕ → List (String × StockSnapshot N) → History N → ℕ × History N
  save_stock date rows h =
      let written = upsert date rows h.stock in
      (written.0, record { stock = written.1; sales = h.sales; captures = h.captures })

  unfoldable pub save_sales : ℕ → List (String × SalesSnapshot N) → History N → ℕ × History N
  save_sales date rows h =
      let written = upsert date rows h.sales in
      (written.0, record { stock = h.stock; sales = written.1; captures = h.captures })

  unfoldable pub mark_sales_captured : ℕ → ℕ → History N → History N
  mark_sales_captured date rows h = record {
    stock = h.stock;
    sales = h.sales;
    captures = put h.captures date rows;
  }

  unfoldable pub latest_stock_date : History N → Option ℕ
  latest_stock_date h = latest (dates h.stock)

  unfoldable pub latest_sales_date : History N → Option ℕ
  latest_sales_date h = latest (dates h.sales)

  unfoldable pub has_stock : ℕ → History N → Bool
  has_stock date h = any (λ d. d == date) (dates h.stock)

  unfoldable pub sales_dates : History N → List ℕ
  sales_dates h = sort leb (to_set (dates h.sales))

  unfoldable pub sales_day_count : History N → ℕ
  sales_day_count h = length (to_set (dates h.sales))

  -- `sales_coverage` with its query
  unfoldable pub coverage : ℕ → History N → Coverage
  coverage max_gaps h = sales_coverage (sort leb (map (λ c. c.0) h.captures)) max_gaps

  -- `daily_demand`; `ahead` is the order in which SQLite compares two keys.
  unfoldable pub daily_demand :
      (Key → Key → Bool) → Option ℕ → History N → List (Key × SalesSnapshot N)
  daily_demand ahead since h =
      let ordered = sort (λ a b. ahead a.0 b.0) h.sales in
      elim since as (λ x. List (Key × SalesSnapshot N)) [
        | none ↦ ordered
        | some day ↦ filter (λ r. leb day (r.0.0)) ordered
      ]
