-- ===== src/Aggregate/Analytics/Abc.antt =====
-- ABC analysis of chic/aggregate/analytics.py (`abc`, `abc_report`). A cut is a number of steps of
-- 1/`one`, and a ratio is compared by multiplying out, where the code divides floats.
pub mod Ranking
use chic_mcp.Prelude.{
  ℕ, ◌*◌, ◌/◌, Bool, true, false, ◌||◌, List, [], ◌∷◌, filter, count, String, length, ◌==◌,
  string_eq, if◌then◌else◌,
}
use chic_mcp.Prelude.Int.{ℤ, pos, pos_part, ◌+ℤ◌, ◌*ℤ◌, leb_ℤ, ltb_ℤ, sum_ℤ}
use chic_mcp.Aggregate.Money.{Money, round_div}
use chic_mcp.Aggregate.Models.Findings.{AbcItem, AbcTotals}
use chic_mcp.Aggregate.Envelope.{Report, report, descending}

unfoldable pub positive : ℤ → Bool
positive v = ltb_ℤ (pos 0) v

default_a : ℕ → ℕ
default_a one = 4 * one / 5

default_b : ℕ → ℕ
default_b one = 19 * one / 20

-- The cuts that are used
unfoldable pub cuts : ℕ → ℤ → ℤ → ℕ × ℕ
unfolding default_a default_b
cuts one a_cut b_cut =
    let a =
      if leb_ℤ a_cut (pos 0) || leb_ℤ (pos one) a_cut then default_a one else pos_part a_cut in
    let b =
      if leb_ℤ b_cut (pos a) || leb_ℤ (pos one) b_cut then default_b one else pos_part b_cut in
    (a, b)

-- `cum / total <= cut`
unfoldable pub within : ℕ → ℤ → ℤ → ℕ → Bool
within one cum total cut = leb_ℤ (cum *ℤ pos one) (total *ℤ pos cut)

-- The class of a value, with the cumulative sum that includes it
unfoldable pub class_of : ℕ → ℕ × ℕ → ℤ → ℤ → ℤ → String
unfolding within positive
class_of one (a, b) total cum v =
    if positive v
    then (if within one cum total a then "A" else if within one cum total b then "B" else "C")
    else "C"

-- The loop over the sorted items that are left
unfoldable pub classify : ℕ → ℕ × ℕ → ℤ → ℤ → List (String × Money) → List AbcItem
unfolding positive class_of
classify one ab total cum [] = []
classify one ab total cum ((name, v) ∷ items) =
    let counts = if positive total then positive v else false in
    let next = if counts then cum +ℤ v else cum in
    record {
      name = name;
      value = v;
      share = if counts then round_div (v *ℤ pos 10000) total else pos 0;
      cumulative_share = if counts then round_div (next *ℤ pos 10000) total else pos 10000;
      abc_class = class_of one ab total next v;
    }
    ∷ classify one ab total next items

-- `abc`
unfoldable pub abc : ℕ → List (String × Money) → ℤ → ℤ → List AbcItem
unfolding positive cuts classify
abc one pairs a_cut b_cut =
    let items = descending (λ p. p.1) pairs in
    let total = sum_ℤ (λ p. p.1) (filter (λ p. positive (p.1)) items) in
    classify one (cuts one a_cut b_cut) total (pos 0) items

is_class : String → AbcItem → Bool
is_class c it = it.abc_class == c

-- `abc_report`; the three counters of its loop
unfoldable pub abc_report : List AbcItem → ℤ → Report AbcItem AbcTotals
unfolding positive is_class
abc_report items limit =
    let value = sum_ℤ (λ it. it.value) (filter (λ it. positive it.value) items) in
    let totals : AbcTotals = record {
      count = length items;
      value = value;
      a_count = count (is_class "A") items;
      b_count = count (λ it. if is_class "A" it then false else is_class "B" it) items;
      c_count =
          count (λ it. if is_class "A" it then false else if is_class "B" it then false else true)
            items;
    } in
    report totals items limit
