-- ===== src/Aggregate/Analytics/Compare.antt =====
-- Period comparison of chic/aggregate/analytics.py.
use chic_mcp.Prelude.{
  ℕ, Bool, true, false, Option, none, some, List, [], ◌∷◌, ◌++◌, map, filter, take, String, ◌==◌,
  string_eq, if◌then◌else◌,
}
use chic_mcp.Prelude.Int.{ℤ, pos, pos_part, ◌+ℤ◌, ◌-ℤ◌, ltb_ℤ, sum_ℤ}
use chic_mcp.Prelude.Dict.{Dict, get, put}
use chic_mcp.Prelude.Sets.{contains}
use chic_mcp.Aggregate.Money.{Money, pct_change}
use chic_mcp.Aggregate.Models.Findings.{Change, Comparison}
use chic_mcp.Aggregate.Envelope.{descending, ascending}
pub mod Deltas
pub mod Totals

-- `m.get(k, dec(0))`
unfoldable pub get_or_zero : Dict String Money → String → Money
get_or_zero m k = elim (get m k) as (λ x. Money) [ none ↦ pos 0 | some v ↦ v ]

unfoldable pub fold_into : Dict String Money → List (String × Money) → Dict String Money
unfolding get_or_zero
fold_into m [] = m
fold_into m ((k, v) ∷ pairs) = fold_into (put m k (get_or_zero m k +ℤ v)) pairs

-- `_fold`
unfoldable pub fold : List (String × Money) → Dict String Money
unfolding fold_into
fold pairs = fold_into [] pairs

-- `_mk_change`
unfoldable pub mk_change : String → Money → Money → Change
mk_change k a b = record {
  key = k;
  value_a = a;
  value_b = b;
  delta = b -ℤ a;
  delta_pct = pct_change a b;
}

keys : Dict String Money → List String
keys m = map (λ e. e.0) m

-- The first loop
unfoldable pub changes_a : Dict String Money → Dict String Money → List Change
unfolding mk_change
changes_a mb [] = []
changes_a mb ((k, va) ∷ ma) = mk_change k va (get_or_zero mb k) ∷ changes_a mb ma

-- The second loop
unfoldable pub changes_b : List String → Dict String Money → List Change
unfolding mk_change
changes_b seen [] = []
changes_b seen ((k, vb) ∷ mb) =
    if contains seen k then changes_b seen mb else mk_change k (pos 0) vb ∷ changes_b seen mb

unfoldable pub changes : Dict String Money → Dict String Money → List Change
unfolding changes_a changes_b keys
changes ma mb = changes_a mb ma ++ changes_b (keys ma) mb

unfoldable pub total : Dict String Money → Money
total m = sum_ℤ (λ e. e.1) m

-- `compare_periods`
unfoldable pub compare_periods : List (String × Money) → List (String × Money) → ℕ → Comparison
compare_periods a b top_n =
    let ma = fold a in
    let mb = fold b in
    let all = changes ma mb in
    record {
      total_a = total ma;
      total_b = total mb;
      delta = total mb -ℤ total ma;
      delta_pct = pct_change (total ma) (total mb);
      top_gainers =
          take top_n (filter (λ c. ltb_ℤ (pos 0) c.delta) (descending (λ c. c.delta) all));
      top_decliners =
          take top_n (filter (λ c. ltb_ℤ c.delta (pos 0)) (ascending (λ c. c.delta) all));
    }
