-- ===== src/History/Days.antt =====
-- The days of chic/history/snapshot.py (`_sales_days`) and chic/history/store.py (`sales_coverage`).
-- A date is its ordinal (`date.toordinal`), which `%Y-%m-%d` renders one to one and in order.
pub mod Window
use chic_mcp.Prelude.{
  ℕ, zero, suc, ◌+◌, ◌-◌, max, Bool, true, false, Option, none, some, List, [], ◌∷◌, leb, length,
  take, count, ◌==◌, nat_eq, if◌then◌else◌,
}
use chic_mcp.Prelude.Int.{ℤ, pos_part}
use chic_mcp.Prelude.Sets.{contains, add}

-- `while day <= end: days.append(day); day += 1`
unfoldable pub days_from : ℕ → ℕ → ℕ → List ℕ
days_from zero day end = []
days_from (suc fuel) day end =
    let rest = days_from fuel (day + 1) end in if leb day end then day ∷ rest else []

abbrev pub window_size : ℤ → ℕ
window_size max_backfill_days = max (pos_part max_backfill_days) 1

-- The first day that still needs a snapshot.
abbrev pub start_day : ℕ → ℤ → Option ℕ → ℕ
start_day now max_backfill_days last =
    let end = now - 1 in
    let floor = end - (window_size max_backfill_days - 1) in
    elim last as (λ x. ℕ) [ none ↦ floor | some l ↦ max (l + 1) floor ]

-- `_sales_days`; the window holds at most `n` days, which is the fuel.
unfoldable pub sales_days : ℕ → ℤ → Option ℕ → List ℕ
unfolding days_from
sales_days now max_backfill_days last =
    days_from (window_size max_backfill_days) (start_day now max_backfill_days last) (now - 1)

-- `Coverage`
pub record Coverage : Type 0 where
  pub captured_days : ℕ
  pub gap_days : ℕ
  pub first : Option ℕ
  pub last : Option ℕ
  pub gaps : List ℕ

-- The loop of `sales_coverage`, over the days that are left.
unfoldable pub gaps_from : List ℕ → ℕ → ℕ → ℕ → List ℕ
gaps_from captured zero day end = []
gaps_from captured (suc fuel) day end =
    let rest = gaps_from captured fuel (day + 1) end in
    if leb day end then (if contains captured day then rest else day ∷ rest) else []

unfoldable pub last_of : ℕ → List ℕ → ℕ
last_of d [] = d
last_of d (x ∷ xs) = last_of x xs

-- `set(dates)`
unfoldable pub to_set : List ℕ → List ℕ
unfolding add contains
to_set [] = []
to_set (d ∷ ds) = add d (to_set ds)

-- `sales_coverage`, on the dates that the query returns, in order.
unfoldable pub sales_coverage : List ℕ → ℕ → Coverage
unfolding gaps_from last_of to_set contains
sales_coverage [] max_gaps = record {
  captured_days = 0;
  gap_days = 0;
  first = none;
  last = none;
  gaps = [];
}
sales_coverage (d ∷ ds) max_gaps =
    let end = last_of d ds in
    let gaps = gaps_from (to_set (d ∷ ds)) (suc end - d) d end in
    record {
      captured_days = length (to_set (d ∷ ds));
      gap_days = length gaps;
      first = some d;
      last = some end;
      gaps = take max_gaps gaps;
    }
