-- ===== src/Aggregate/Report/Reports.antt =====
-- The reports of chic/aggregate/report.py: the lines in descending order of an amount, totals over
-- all of them, and the first `limit` shown. A sum of amounts with two places needs no rounding.
use chic_mcp.Prelude.{ℕ, List, nat_eq, string_eq}
use chic_mcp.Prelude.Int.{ℤ, pos, sum_ℤ}
use chic_mcp.Moysklad.Models.Reports.{
  ProfitByProductRow, ProfitByEntityRow, TurnoverRow, StockRow, CounterpartyRow,
}
use chic_mcp.Aggregate.Money.{Steps, margin_pct, round2}
use chic_mcp.Aggregate.Models.Lines.{
  ProfitProductLine, ProfitEntityLine, TurnoverLine, StockLine, CounterpartyMetric,
}
use chic_mcp.Aggregate.Models.Totals.{ProfitTotals, TurnoverTotals, StockTotals, CounterpartyTotals}
use chic_mcp.Aggregate.Envelope.{Report, report, descending}
use chic_mcp.Aggregate.Report.Rows.{
  profit_by_product, profit_by_entity, turnover, stock, counterparty_metrics,
}

module _ (one : ℕ) where
  unfoldable pub profit_product_report :
      List (ProfitByProductRow Steps) → ℤ → Report ProfitProductLine ProfitTotals
  profit_product_report rows limit =
      let lines = descending (λ x. x.revenue) (profit_by_product one rows) in
      let revenue = sum_ℤ (λ x. x.revenue) lines in
      let profit = sum_ℤ (λ x. x.profit) lines in
      let totals : ProfitTotals = record {
        revenue = revenue;
        cost = sum_ℤ (λ x. x.cost) lines;
        profit = profit;
        return_sum = sum_ℤ (λ x. x.return_sum) lines;
        sell_quantity = round2 one (sum_ℤ (λ x. x.sell_quantity) lines);
        sales_count = pos 0;
        margin_pct = margin_pct profit revenue;
      } in
      report totals lines limit

  unfoldable pub profit_entity_report :
      List (ProfitByEntityRow Steps) → ℤ → Report ProfitEntityLine ProfitTotals
  profit_entity_report rows limit =
      let lines = descending (λ x. x.revenue) (profit_by_entity one rows) in
      let revenue = sum_ℤ (λ x. x.revenue) lines in
      let profit = sum_ℤ (λ x. x.profit) lines in
      let totals : ProfitTotals = record {
        revenue = revenue;
        cost = sum_ℤ (λ x. x.cost) lines;
        profit = profit;
        return_sum = pos 0;
        sell_quantity = pos 0;
        sales_count = sum_ℤ (λ x. x.sales_count) lines;
        margin_pct = margin_pct profit revenue;
      } in
      report totals lines limit

  unfoldable pub turnover_report :
      List (TurnoverRow Steps) → Steps → ℤ → Report TurnoverLine TurnoverTotals
  turnover_report rows period_days limit =
      let lines = descending (λ x. x.end_value) (turnover one rows period_days) in
      let totals : TurnoverTotals = record {
        income_qty = round2 one (sum_ℤ (λ x. x.income_qty) lines);
        outcome_qty = round2 one (sum_ℤ (λ x. x.outcome_qty) lines);
        end_value = sum_ℤ (λ x. x.end_value) lines;
      } in
      report totals lines limit

  unfoldable pub stock_report : List (StockRow Steps) → ℤ → Report StockLine StockTotals
  stock_report rows limit =
      let lines = descending (λ x. x.stock_value) (stock one rows) in
      let totals : StockTotals = record {
        units = round2 one (sum_ℤ (λ x. x.stock) lines);
        available = round2 one (sum_ℤ (λ x. x.available) lines);
        stock_value = sum_ℤ (λ x. x.stock_value) lines;
      } in
      report totals lines limit

  unfoldable pub counterparty_report :
      List (CounterpartyRow Steps) → ℤ → Report CounterpartyMetric CounterpartyTotals
  counterparty_report rows limit =
      let lines = descending (λ x. x.revenue) (counterparty_metrics one rows) in
      let revenue = sum_ℤ (λ x. x.revenue) lines in
      let profit = sum_ℤ (λ x. x.profit) lines in
      let totals : CounterpartyTotals = record {
        revenue = revenue;
        profit = profit;
        returns_sum = sum_ℤ (λ x. x.returns_sum) lines;
        balance = sum_ℤ (λ x. x.balance) lines;
        margin_pct = margin_pct profit revenue;
      } in
      report totals lines limit
