-- ===== src/Aggregate/Report/Totals.antt =====
-- The totals of the reports cover every row, whatever the limit, and are sums of the rows' own
-- amounts.
use chic_mcp.Prelude.{ℕ, ◌≡◌, refl, ap, ◌∙◌, List, map}
use chic_mcp.Prelude.Int.{ℤ, ◌-ℤ◌, ◌*ℤ◌, sum_ℤ, sum_ℤ-map}
use chic_mcp.Prelude.Sort.{sum_ℤ-sort}
use chic_mcp.Moysklad.Models.Reports.{ProfitByProductRow, StockRow, CounterpartyRow}
use chic_mcp.Aggregate.Money.{Steps, minor_to_major, margin_pct, money_round, round2}
use chic_mcp.Aggregate.Envelope.{report, descending}
use chic_mcp.Aggregate.Envelope.Census.{is_ahead}
use chic_mcp.Aggregate.Report.Rows.{
  profit_by_product, profit_product_line, stock, stock_line, counterparty_metrics,
  counterparty_metric,
}
use chic_mcp.Aggregate.Report.Reports.{profit_product_report, stock_report, counterparty_report}

-- A sum over the lines in order is the sum over the rows they come from.
total_of :
    {R L : Type 0} (key amount : L → ℤ) (line : R → L) (rows : List R)
    → sum_ℤ amount (descending key (map line rows)) ≡ sum_ℤ (λ r. amount (line r)) rows
unfolding descending
total_of key amount line rows =
    sum_ℤ-sort (is_ahead key) amount (map line rows) ∙ sum_ℤ-map amount line rows

module _ (one : ℕ) (limit : ℤ) where
  -- The profit report by product totals revenue, cost, profit and returns over all rows, and its
  -- margin is that of the totals.
  pub profit_product_report-Totals :
      (rows : List (ProfitByProductRow Steps))
      → let totals = (profit_product_report one rows limit).totals in
        (totals.revenue ≡ sum_ℤ (λ r. minor_to_major one r.sell_sum) rows)
        × (totals.cost ≡ sum_ℤ (λ r. minor_to_major one r.sell_cost_sum) rows)
        × (totals.profit ≡ sum_ℤ (λ r. minor_to_major one r.profit) rows)
        × (totals.return_sum ≡ sum_ℤ (λ r. minor_to_major one r.return_sum) rows)
        × (totals.margin_pct ≡ margin_pct totals.profit totals.revenue)
  unfolding profit_product_report profit_by_product profit_product_line report
  profit_product_report-Totals rows =
      let line = profit_product_line one in
      (
        total_of (λ x. x.revenue) (λ x. x.revenue) line rows,
        total_of (λ x. x.revenue) (λ x. x.cost) line rows,
        total_of (λ x. x.revenue) (λ x. x.profit) line rows,
        total_of (λ x. x.revenue) (λ x. x.return_sum) line rows,
        refl,
      )

  -- The stock report totals the value of the stock over all rows, each value being quantity times
  -- cost rounded to the cent, and rounds the sums of the quantities once, at the end.
  pub stock_report-Totals :
      (rows : List (StockRow Steps))
      → let totals = (stock_report one rows limit).totals in
        (totals.stock_value
          ≡ sum_ℤ (λ r. money_round one (r.stock *ℤ minor_to_major one r.price)) rows)
        × (totals.units ≡ round2 one (sum_ℤ (λ r. r.stock) rows))
        × (totals.available ≡ round2 one (sum_ℤ (λ r. r.stock -ℤ r.reserve) rows))
  unfolding stock_report stock stock_line report
  stock_report-Totals rows =
      let line = stock_line one in
      (
        total_of (λ x. x.stock_value) (λ x. x.stock_value) line rows,
        ap (round2 one) (total_of (λ x. x.stock_value) (λ x. x.stock) line rows),
        ap (round2 one) (total_of (λ x. x.stock_value) (λ x. x.available) line rows),
      )

  -- The counterparty report totals revenue, profit, returns and balance over all rows.
  pub counterparty_report-Totals :
      (rows : List (CounterpartyRow Steps))
      → let totals = (counterparty_report one rows limit).totals in
        (totals.revenue ≡ sum_ℤ (λ r. minor_to_major one r.demands_sum) rows)
        × (totals.profit ≡ sum_ℤ (λ r. minor_to_major one r.profit) rows)
        × (totals.returns_sum ≡ sum_ℤ (λ r. minor_to_major one r.returns_sum) rows)
        × (totals.balance ≡ sum_ℤ (λ r. minor_to_major one r.balance) rows)
  unfolding counterparty_report counterparty_metrics counterparty_metric report
  counterparty_report-Totals rows =
      let line = counterparty_metric one in
      (
        total_of (λ x. x.revenue) (λ x. x.revenue) line rows,
        total_of (λ x. x.revenue) (λ x. x.profit) line rows,
        total_of (λ x. x.revenue) (λ x. x.returns_sum) line rows,
        total_of (λ x. x.revenue) (λ x. x.balance) line rows,
      )
