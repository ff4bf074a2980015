-- ===== src/Aggregate/Report/Rows.antt =====
-- The mappings of chic/aggregate/report.py from rows of the API to lines; `one` is the number of
-- steps in a unit (see Aggregate.Money).
use Prim.Native.String.{◌++◌ as concat}
use chic_mcp.Prelude.{
  ℕ, ◌*◌, ◌||◌, Option, none, some, List, [], ◌∷◌, map, String, ◌==◌, string_eq, if◌then◌else◌,
}
use chic_mcp.Prelude.Int.{pos, ◌+ℤ◌, ◌-ℤ◌, ◌*ℤ◌, leb_ℤ, sum_ℤ}
use chic_mcp.Moysklad.Models.Entities.{
  Product, SalePrice, BuyPrice, EntityRef, State, AssortmentRow,
}
use chic_mcp.Moysklad.Models.Reports.{
  Dashboard, ProfitByProductRow, ProfitByEntityRow, TurnoverRow, StockRow, CounterpartyRow,
  MoneySeries, MoneySeriesPoint, SalesSeries, SalesSeriesPoint, AuditRow, holder_name,
}
use chic_mcp.Aggregate.Money.{
  Money, Hundredths, Steps, minor_to_major, money_round, margin_pct, round_div, round2, whole,
}
use chic_mcp.Aggregate.Models.Lines.{
  DashboardSummary, ProductSummary, ProfitProductLine, ProfitEntityLine, TurnoverLine, StockLine,
  CounterpartyMetric, MoneyFlow, MoneyFlowPoint, EntityRefOut, StateOut, AssortmentLine,
  SalesSeriesPointOut, SalesSeriesOut, AuditLine,
}

-- `product_key`
unfoldable pub product_key : String → String → String
product_key meta_href name = if meta_href == "" then concat "name:" name else meta_href

module _ (one : ℕ) where
  -- `dashboard`
  unfoldable pub dashboard : String → Dashboard Steps → DashboardSummary
  dashboard period d = record {
    period = period;
    sales_count = d.sales.count;
    sales_amount = minor_to_major one d.sales.amount;
    sales_delta_vs_prev = minor_to_major one d.sales.movement_amount;
    orders_count = d.orders.count;
    orders_amount = minor_to_major one d.orders.amount;
    money_income = minor_to_major one d.money.income;
    money_outcome = minor_to_major one d.money.outcome;
    money_balance = minor_to_major one d.money.balance;
  }

  first_price : List (SalePrice Steps) → Money
  first_price [] = pos 0
  first_price (p ∷ ps) = minor_to_major one p.value

  buying_price : Option (BuyPrice Steps) → Money
  buying_price none = pos 0
  buying_price (some p) = minor_to_major one p.value

  -- `product`
  unfoldable pub product : Product Steps → ProductSummary
  unfolding first_price buying_price
  product p = record {
    id = p.id;
    name = p.name;
    code = p.code;
    article = p.article;
    archived = p.archived;
    sale_price = first_price p.sale_prices;
    buy_price = buying_price p.buy_price;
  }

  unfoldable pub products : List (Product Steps) → List ProductSummary
  products ps = map product ps

  -- The body of the loop of `profit_by_product`
  unfoldable pub profit_product_line : ProfitByProductRow Steps → ProfitProductLine
  profit_product_line r =
      let revenue = minor_to_major one r.sell_sum in
      let profit = minor_to_major one r.profit in
      record {
        id = product_key r.assortment.meta.href r.assortment.name;
        name = r.assortment.name;
        code = r.assortment.code;
        sell_quantity = r.sell_quantity;
        revenue = revenue;
        cost = minor_to_major one r.sell_cost_sum;
        return_sum = minor_to_major one r.return_sum;
        profit = profit;
        margin_pct = margin_pct profit revenue;
      }

  unfoldable pub profit_by_product : List (ProfitByProductRow Steps) → List ProfitProductLine
  profit_by_product rows = map profit_product_line rows

  unfoldable pub profit_entity_line : ProfitByEntityRow Steps → ProfitEntityLine
  profit_entity_line r =
      let revenue = minor_to_major one r.sell_sum in
      let profit = minor_to_major one r.profit in
      record {
        name = holder_name r;
        revenue = revenue;
        cost = minor_to_major one r.sell_cost_sum;
        profit = profit;
        sales_count = r.sales_count;
        avg_check = minor_to_major one r.sales_avg_check;
        margin_pct = margin_pct profit revenue;
      }

  unfoldable pub profit_by_entity : List (ProfitByEntityRow Steps) → List ProfitEntityLine
  profit_by_entity rows = map profit_entity_line rows

  -- `_turnover_days`: the average stock over the daily outcome, which is positive where it divides.
  unfoldable pub turnover_days : TurnoverRow Steps → Steps → Hundredths
  turnover_days r period_days =
      let out = r.outcome.quantity in
      if leb_ℤ out (pos 0) || leb_ℤ period_days (pos 0)
      then pos 0
      else round_div
          ((r.on_period_start.quantity +ℤ r.on_period_end.quantity) *ℤ period_days *ℤ pos 100)
          (out *ℤ pos (2 * one))

  unfoldable pub turnover_line : Steps → TurnoverRow Steps → TurnoverLine
  turnover_line period_days r = record {
    name = r.assortment.name;
    start_qty = r.on_period_start.quantity;
    income_qty = r.income.quantity;
    outcome_qty = r.outcome.quantity;
    end_qty = r.on_period_end.quantity;
    end_value = minor_to_major one r.on_period_end.sum;
    turnover_days = turnover_days r period_days;
  }

  unfoldable pub turnover : List (TurnoverRow Steps) → Steps → List TurnoverLine
  turnover rows period_days = map (turnover_line period_days) rows

  unfoldable pub stock_line : StockRow Steps → StockLine
  stock_line r =
      let cost = minor_to_major one r.price in
      record {
        id = product_key r.meta.href r.name;
        name = r.name;
        code = r.code;
        article = r.article;
        stock = r.stock;
        reserve = r.reserve;
        available = r.stock -ℤ r.reserve;
        in_transit = r.in_transit;
        cost_price = cost;
        sale_price = minor_to_major one r.sale_price;
        stock_value = money_round one (r.stock *ℤ cost);
        stock_days = whole one r.stock_days;
      }

  unfoldable pub stock : List (StockRow Steps) → List StockLine
  stock rows = map stock_line rows

  unfoldable pub counterparty_metric : CounterpartyRow Steps → CounterpartyMetric
  counterparty_metric r = record {
    name = r.counterparty.name;
    first_demand = r.first_demand_date;
    last_demand = r.last_demand_date;
    demands_count = r.demands_count;
    revenue = minor_to_major one r.demands_sum;
    avg_receipt = minor_to_major one r.average_receipt;
    returns_sum = minor_to_major one r.returns_sum;
    balance = minor_to_major one r.balance;
    profit = minor_to_major one r.profit;
  }

  unfoldable pub counterparty_metrics : List (CounterpartyRow Steps) → List CounterpartyMetric
  counterparty_metrics rows = map counterparty_metric rows

  flow_point : MoneySeriesPoint Steps → MoneyFlowPoint
  flow_point p = record {
    date = p.date;
    income = minor_to_major one p.credit;
    outcome = minor_to_major one p.debit;
    balance = minor_to_major one p.balance;
  }

  -- `money`; a difference of amounts with two places needs no rounding.
  unfoldable pub money : MoneySeries Steps → MoneyFlow
  unfolding flow_point
  money m =
      let income = minor_to_major one m.credit in
      let outcome = minor_to_major one m.debit in
      record {
        income = income;
        outcome = outcome;
        net = income -ℤ outcome;
        series = map flow_point m.series;
      }

  series_point : SalesSeriesPoint Steps → SalesSeriesPointOut
  series_point p = record { date = p.date; quantity = p.quantity; sum = minor_to_major one p.sum }

  -- `sales_series`
  unfoldable pub sales_series : String → SalesSeries Steps → SalesSeriesOut
  unfolding series_point
  sales_series kind s =
      let points = map series_point s.series in
      record {
        kind = kind;
        total_quantity = round2 one (sum_ℤ (λ p. p.quantity) points);
        total_sum = sum_ℤ (λ p. p.sum) points;
        series = points;
      }

  unfoldable pub assortment_line : AssortmentRow Steps → AssortmentLine
  unfolding first_price buying_price
  assortment_line r = record {
    id = r.id;
    kind = if r.meta.type == "" then "product" else r.meta.type;
    name = r.name;
    code = r.code;
    article = r.article;
    sale_price = first_price r.sale_prices;
    buy_price = buying_price r.buy_price;
    stock = r.quantity;
  }

  unfoldable pub assortment : List (AssortmentRow Steps) → List AssortmentLine
  assortment rows = map assortment_line rows

unfoldable pub entity_ref : EntityRef → EntityRefOut
entity_ref r = record {
  id = r.id;
  name = r.name;
  code = r.code;
  archived = r.archived;
  description = r.description;
  path_name = r.path_name;
  inn = r.inn;
}

unfoldable pub entity_refs : List EntityRef → List EntityRefOut
entity_refs rows = map entity_ref rows

unfoldable pub state_out : State → StateOut
state_out r = record { id = r.id; name = r.name; type = r.state_type; entity_type = r.entity_type }

unfoldable pub states : List State → List StateOut
states rows = map state_out rows

unfoldable pub audit_line : AuditRow → AuditLine
audit_line r = record {
  moment = r.moment;
  employee = r.uid;
  entity_type = r.entity_type;
  event_type = r.event_type;
  object_count = r.object_count;
  source = r.source;
}

unfoldable pub audit : List AuditRow → List AuditLine
audit rows = map audit_line rows
