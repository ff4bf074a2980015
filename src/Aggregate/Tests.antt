-- ===== src/Aggregate/Tests.antt =====
-- chic/aggregate: runs at concrete inputs. A float has three decimals: a unit is 1000 steps.
use mathlib.Core.List.{Perm}
use chic_mcp.Prelude.{
  ℕ, ◌+◌, ◌*◌, ◌≤◌, ◌<◌, arith, ◌≡◌, refl, true, Option, some, none, List, [], ◌∷◌, map, String,
}
use chic_mcp.Prelude.Int.{abs, ℤ, pos, negsuc, neg, sum_ℤ, ◌-ℤ◌}
use chic_mcp.Moysklad.Models.Entities.{Meta}
use chic_mcp.Moysklad.Models.Reports.{ProfitByProductRow, StockRow, CounterpartyRow}
use chic_mcp.Moysklad.Models.Papers.{Document}
use chic_mcp.Aggregate.Money.Rounding.{minor_to_major-Nearest}
use chic_mcp.Aggregate.Money.{half_up, minor_to_major, round_div}
use chic_mcp.Aggregate.Analytics.Abc.{abc}
use chic_mcp.Aggregate.Analytics.Abc.Ranking.{IsRanked, pair_of, abc-IsRanked}
use chic_mcp.Aggregate.Analytics.Aging.{receivables_aging}
use chic_mcp.Aggregate.Analytics.Aging.Balance.{Balanced, receivables_aging-Balanced}
use chic_mcp.Aggregate.Analytics.Segments.{SegmentParams}
use chic_mcp.Aggregate.Analytics.Compare.{changes, fold}
use chic_mcp.Aggregate.Analytics.Compare.Deltas.{changes-Deltas}

-- Half a minor unit below zero goes away from zero.
half_down : minor_to_major 1000 (negsuc 2499) ≡ negsuc 2
unfolding minor_to_major round_div half_up neg
half_down = refl

abbrev amounts : List ℤ
amounts = pos 3 ∷ pos 9 ∷ negsuc 4 ∷ []

abbrev same : ℤ → ℤ
same a = a

abbrev meta_of : String → Meta
meta_of href = record {
  href = href;
  metadata_href = "";
  type = "product";
  media_type = "";
  size = pos 0;
  limit = pos 0;
  offset = pos 0;
  next_href = "";
  previous_href = "";
}

abbrev sold : String → ℕ → ProfitByProductRow ℤ
sold href sum = record {
  assortment = record { meta = meta_of href; name = "tea"; code = "" };
  sell_quantity = pos 2000;
  sell_sum = pos sum;
  sell_cost_sum = pos 200000;
  return_quantity = pos 0;
  return_sum = pos 0;
  return_cost_sum = pos 0;
  profit = pos 100000;
  margin = pos 0;
  sales_margin = pos 0;
}

abbrev sold_rows : List (ProfitByProductRow ℤ)
sold_rows = sold "p1" 300500 ∷ sold "p2" 900000 ∷ []

abbrev on_hand : String → ℕ → StockRow ℤ
on_hand href days = record {
  meta = meta_of href;
  name = "tea";
  code = "";
  article = "";
  price = pos 150000;
  sale_price = pos 200000;
  stock = pos 4000;
  reserve = pos 1000;
  in_transit = pos 0;
  quantity = pos 3000;
  stock_days = pos days;
}

abbrev stock_rows : List (StockRow ℤ)
stock_rows = on_hand "p1" 400000 ∷ on_hand "p2" 3000 ∷ []

abbrev customers : List (CounterpartyRow ℤ)
customers =
    record {
      counterparty = record { meta = meta_of "c1"; name = "cafe"; code = "" };
      first_demand_date = "";
      last_demand_date = "";
      demands_count = pos 2;
      demands_sum = pos 500000;
      average_receipt = pos 250000;
      returns_count = pos 0;
      returns_sum = pos 0;
      discounts_sum = pos 0;
      balance = negsuc 99999;
      profit = pos 70000;
      last_event_date = "";
    }
    ∷ []

abbrev invoice : ℕ → Document ℤ
invoice paid = record {
  meta = meta_of "d1";
  id = "d1";
  name = "00001";
  moment = "";
  applicable = true;
  description = "";
  sum = pos 700000;
  vat_sum = pos 0;
  payed_sum = pos paid;
  shipped_sum = pos 0;
  invoiced_sum = pos 0;
  payment_planned_moment = "2026-07-01 00:00:00";
  delivery_planned_moment = "";
  agent = none;
  organization = none;
  store = none;
  sales_channel = none;
  state = none;
  rate = none;
  positions = none;
  attributes = [];
}

abbrev july_first : String → Option ℕ
july_first s = some 1000000

receivables_aging-Balanced_example :
    Balanced
      (receivables_aging 1000 july_first 4000000 (invoice 0 ∷ invoice 700000 ∷ []) (pos 5)).buckets
      (receivables_aging 1000 july_first 4000000
        (invoice 0 ∷ invoice 700000 ∷ [])
        (pos 5)).item_count
      (receivables_aging 1000 july_first 4000000
        (invoice 0 ∷ invoice 700000 ∷ [])
        (pos 5)).total_outstanding
      (receivables_aging 1000 july_first 4000000
        (invoice 0 ∷ invoice 700000 ∷ [])
        (pos 5)).total_overdue
receivables_aging-Balanced_example =
    receivables_aging-Balanced 1000 july_first 4000000 (invoice 0 ∷ invoice 700000 ∷ []) (pos 5)

abbrev june : List (String × ℤ)
june = ("tea", pos 500) ∷ ("cups", pos 20) ∷ ("tea", pos 7) ∷ []

abbrev july : List (String × ℤ)
july = ("tea", pos 300) ∷ ("pots", pos 90) ∷ []

changes-Deltas_example :
    sum_ℤ (λ c. c.delta) (changes (fold june) (fold july))
    ≡ sum_ℤ (λ p. p.1) july -ℤ sum_ℤ (λ p. p.1) june
changes-Deltas_example = changes-Deltas june july

-- The second pair is six sevenths of the positive values, and the last one is a loss.
abbrev sales : List (String × ℤ)
sales = ("cups", pos 100) ∷ ("tea", pos 900) ∷ ("pots", pos 50) ∷ ("bags", negsuc 4) ∷ []

abc-IsRanked_example :
    Perm (map pair_of (abc 1000 sales (pos 900) (pos 0))) sales
    × IsRanked (abc 1000 sales (pos 900) (pos 0))
abc-IsRanked_example = abc-IsRanked 1000 sales (pos 900) (pos 0)

-- Every last purchase was ninety days before.
abbrev watched : SegmentParams
watched = record {
  now = 8776000;
  sleeping_days = pos 0;
  at_risk_days = pos 30;
  vip_top_percent = 0;
  low_check_threshold = pos 0;
}

minor_to_major-Nearest_example :
    (2 * (abs (minor_to_major 1000 (negsuc 2499)) * 1000) ≤ 2 * abs (negsuc 2499) + 1000)
    × (2 * abs (negsuc 2499) + 1000
        < 2 * (abs (minor_to_major 1000 (negsuc 2499)) * 1000) + 2 * 1000)
    × (minor_to_major 1000 (negsuc 2499) ≡ neg (pos (abs (minor_to_major 1000 (negsuc 2499)))))
minor_to_major-Nearest_example = minor_to_major-Nearest 1000 (negsuc 2499) (omega arith)
