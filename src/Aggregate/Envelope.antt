-- ===== src/Aggregate/Envelope.antt =====
-- chic/aggregate/envelope.py, the `Report` of chic/aggregate/models.py, and the sort of the lines.
use chic_mcp.Prelude.{ℕ, Bool, true, false, ◌&&◌, List, take, length, ltb, if◌then◌else◌}
use chic_mcp.Prelude.Int.{ℤ, pos_part, leb_ℤ}
use chic_mcp.Prelude.Sort.{sort}
pub mod Census

pub record Report (Row : Type 0) (Totals : Type 0) : Type 0 where
  pub totals : Totals
  pub row_count : ℕ
  pub returned : ℕ
  pub truncated : Bool
  pub rows : List Row

-- `0 < limit < full`
abbrev pub cuts : ℤ → ℕ → Bool
cuts limit full = ltb 0 (pos_part limit) && ltb (pos_part limit) full

-- `truncate`
unfoldable pub truncate : {Row : Type 0} → List Row → ℤ → List Row × ℕ × Bool
truncate rows limit =
    if cuts limit (length rows)
    then (take (pos_part limit) rows, length rows, true)
    else (rows, length rows, false)

-- How every `*_report` ends.
unfoldable pub report : {Row Totals : Type 0} → Totals → List Row → ℤ → Report Row Totals
unfolding truncate
report totals lines limit =
    let cut = truncate lines limit in
    record {
      totals = totals;
      row_count = cut.1;
      returned = length (cut.0);
      truncated = cut.2;
      rows = cut.0;
    }

-- `sorted(rows, key=key, reverse=True)`, which is stable.
unfoldable pub descending : {Row : Type 0} → (Row → ℤ) → List Row → List Row
descending key = sort (λ x y. leb_ℤ (key y) (key x))

-- `sorted(rows, key=key)`
unfoldable pub ascending : {Row : Type 0} → (Row → ℤ) → List Row → List Row
ascending key = sort (λ x y. leb_ℤ (key x) (key y))
