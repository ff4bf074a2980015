-- ===== src/History/Tests.antt =====
-- chic/history: runs at concrete inputs. Day 10 is today.
use chic_mcp.Prelude.{
  ℕ, suc, ◌+◌, ◌-◌, ◌≤◌, ◌≡◌, refl, arith, not, ◌&&◌, some, none, List, [], ◌∷◌, length, ltb, leb,
  String, ◌==◌, nat_eq, string_eq, pair_eq, if◌then◌else◌,
}
use chic_mcp.Prelude.Int.{ℤ, pos}
use chic_mcp.Prelude.Dict.{Dict, get, Distinct}
use chic_mcp.Prelude.Sets.{contains}
use chic_mcp.Moysklad.Models.Entities.{Meta}
use chic_mcp.Moysklad.Models.Reports.{ProfitByProductRow}
use chic_mcp.History.Days.{window_size, sales_days, sales_coverage, last_of, days_from}
use chic_mcp.History.Days.Window.{is_after, contains-sales_days, sales_coverage-Census}
use chic_mcp.History.Store.{
  History, Key, StockSnapshot, SalesSnapshot, upsert, latest_sales_date, latest,
}
use chic_mcp.History.Store.Upsert.{last_row, get-upsert}
use chic_mcp.History.Snapshot.{Source, dedupe, capture}
use chic_mcp.History.Snapshot.Capture.{size, dedupe-upsert}
use chic_mcp.History.Snapshot.Run.{capture-marks}

contains-sales_days_example :
    (contains (sales_days 10 (pos 3) (some 4)) 8
      ≡ ltb 8 10 && (leb 10 (8 + window_size (pos 3)) && is_after (some 4) 8))
    × (length (sales_days 10 (pos 3) (some 4)) ≤ window_size (pos 3))
contains-sales_days_example = contains-sales_days 10 (pos 3) (some 4) 8 (omega arith)

days_example : sales_days 10 (pos 3) (some 4) ≡ 7 ∷ 8 ∷ 9 ∷ []
unfolding sales_days days_from
days_example = refl

abbrev more_days : List ℕ
more_days = 4 ∷ 7 ∷ []

sales_coverage-Census_example :
    ((sales_coverage (3 ∷ more_days) 10).captured_days ≡ length (3 ∷ more_days))
    × ((sales_coverage (3 ∷ more_days) 10).captured_days
          + (sales_coverage (3 ∷ more_days) 10).gap_days
        ≡ suc (last_of 3 more_days) - 3)
    × (length (sales_coverage (3 ∷ more_days) 10).gaps
        ≡ (sales_coverage (3 ∷ more_days) 10).gap_days)
    × (contains (sales_coverage (3 ∷ more_days) 10).gaps 5
        ≡ leb 3 5 && (leb 5 (last_of 3 more_days) && not (contains (3 ∷ more_days) 5)))
unfolding last_of
sales_coverage-Census_example =
    sales_coverage-Census 3 7 more_days 10 5 (omega arith)
      (omega arith, omega arith, (omega arith, omega arith, tt)) (omega arith)

abbrev nine : ℕ
nine = 9

abbrev no_rows : Dict Key ℕ
no_rows = []

abbrev pairs : List (String × ℕ)
pairs = ("a", 1) ∷ ("b", 2) ∷ ("a", 3) ∷ []

get-upsert_example :
    ((upsert 9 pairs no_rows).0 ≡ length pairs)
    × (get ((upsert 9 pairs no_rows).1) (9, "a") ≡ (
        if nine == nine then last_row "a" pairs (get no_rows (9, "a")) else get no_rows (9, "a")))
get-upsert_example = get-upsert 9 pairs no_rows 9 "a"

dedupe-upsert_example :
    Distinct (dedupe pairs)
    × (get ((upsert 9 (dedupe pairs) no_rows).1) (9, "a")
        ≡ get ((upsert 9 pairs no_rows).1) (9, "a"))
dedupe-upsert_example = dedupe-upsert 9 pairs no_rows 9 "a"

abbrev meta_of : String → Meta
meta_of href = record {
  href = href;
  metadata_href = "";
  type = "product";
  media_type = "";
  size = pos 0;
  limit = pos 0;
  offset = pos 0;
  next_href = "";
  previous_href = "";
}

abbrev sold : ProfitByProductRow ℤ
sold = record {
  assortment = record { meta = meta_of "p1"; name = "tea"; code = "" };
  sell_quantity = pos 2;
  sell_sum = pos 300;
  sell_cost_sum = pos 200;
  return_quantity = pos 0;
  return_sum = pos 0;
  return_cost_sum = pos 0;
  profit = pos 100;
  margin = pos 0;
  sales_margin = pos 0;
}

abbrev sold_rows : ℕ → List (ProfitByProductRow ℤ)
sold_rows day = sold ∷ []

abbrev api : Source ℤ
api = record { get_stock = some []; profit_by_product = λ day. some (sold_rows day) }

-- The API fails on day 9.
abbrev flaky : Source ℤ
flaky = record {
  get_stock = some [];
  profit_by_product = λ day. if day == 9 then none else some (sold_rows day);
}

abbrev empty_history : History ℤ
empty_history = record { stock = []; sales = []; captures = [] }

abbrev one_sale : SalesSnapshot ℤ
one_sale = record {
  name = "tea";
  code = "";
  sell_quantity = pos 2;
  sell_sum_minor = pos 300;
  sell_cost_minor = pos 200;
  profit_minor = pos 100;
  return_quantity = pos 0;
  return_sum_minor = pos 0;
}

abbrev one_stock : StockSnapshot ℤ
one_stock = record {
  name = "tea";
  code = "";
  stock = pos 2;
  reserve = pos 0;
  in_transit = pos 0;
  price_minor = pos 100;
  sale_price_minor = pos 150;
  stock_days = pos 3;
}

abbrev stored : History ℤ
stored = record {
  stock = ((10, "p1"), one_stock) ∷ [];
  sales = ((9, "p1"), one_sale) ∷ [];
  captures = (9, 1) ∷ [];
}

capture-marks_example :
    ((n : ℕ) × ((capture (λ n. n) api 10 (pos 3) empty_history).0 ≡ some n))
    × (get ((capture (λ n. n) api 10 (pos 3) empty_history).1).captures 8 ≡ (
        if ltb 8 10
          && (leb 10 (8 + window_size (pos 3)) && is_after (latest_sales_date empty_history) 8)
        then some (size api sold_rows 8)
        else get empty_history.captures 8))
unfolding latest_sales_date latest sales_days days_from
capture-marks_example =
    capture-marks (λ n. n) api 10 (pos 3) sold_rows [] refl empty_history 8 (omega arith)
      (refl, (refl, (refl, tt)))
