-- ===== src/Aggregate/Analytics/DeadStock/Moved.antt =====
-- Which stock counts as dead, and what its report adds up.
use chic_mcp.Prelude.{
  ℕ, suc, ◌≡◌, refl, sym, ap, ◌∙◌, Bool, true, false, not, ◌||◌, ◌&&◌, Option, none, some, List, [],
  ◌∷◌, ◌++◌, map, filter, length, String, string_eq, arith, if◌then◌else◌,
}
use chic_mcp.Prelude.Int.{ℤ, pos, ◌*ℤ◌, leb_ℤ, ltb_ℤ, sum_ℤ, sum_ℤ-map}
use chic_mcp.Prelude.Sort.{sum_ℤ-sort, length-sort}
use chic_mcp.Prelude.Dict.{Dict}
use chic_mcp.Moysklad.Models.Reports.{StockRow}
use chic_mcp.Aggregate.Money.{Steps}
use chic_mcp.Aggregate.Models.Lines.{StockLine}
use chic_mcp.Aggregate.Envelope.{descending}
use chic_mcp.Aggregate.Envelope.Census.{is_ahead}
use chic_mcp.Aggregate.Report.Rows.{stock_line}
use chic_mcp.Aggregate.Analytics.DeadStock.{
  DeadStockLine, outcome_of, dead_line, dead_lines, dead_stock,
}

length-map : {A B : Type 0} (f : A → B) (xs : List A) → length (map f xs) ≡ length xs
length-map f [] = refl
length-map f (x ∷ xs) = ap suc (length-map f xs)

module _ (one : ℕ) (outcomes : Option (Dict String Steps)) (threshold_days : ℤ) where
  -- A known outcome that is positive
  abbrev pub moved : StockRow Steps → Bool
  moved r = elim (outcome_of outcomes r.meta.href) as (λ x. Bool) [
    | none ↦ false
    | some o ↦ ltb_ℤ (pos 0) o
  ]

  -- In stock, there for the threshold at least, and not known to have moved
  abbrev pub is_dead : StockRow Steps → Bool
  is_dead r =
      ltb_ℤ (pos 0) r.stock && (leb_ℤ (threshold_days *ℤ pos one) r.stock_days && not (moved r))

  lines_of : List DeadStockLine → List StockLine
  lines_of xs = map (λ x. x.line) xs

  branches :
      (s days t : ℤ) (line : StockLine) (o : Option Steps)
      → lines_of (
          if leb_ℤ s (pos 0) || ltb_ℤ days t then [] else elim o as (λ x. List DeadStockLine) [
            | none ↦ record { line = line; outcome_qty = pos 0 } ∷ []
            | some outcome ↦
                if ltb_ℤ (pos 0) outcome
                then []
                else record { line = line; outcome_qty = outcome } ∷ []
          ])
        ≡ (if ltb_ℤ (pos 0) s
              && (leb_ℤ t days
                  && not (elim o as (λ x. Bool) [ none ↦ false | some v ↦ ltb_ℤ (pos 0) v ]))
            then line ∷ []
            else [])
  unfolding lines_of
  branches s days t line none = ground arith
  branches s days t line (some v) = ground arith

  dead_line_lem :
      (r : StockRow Steps)
      → lines_of (dead_line one outcomes threshold_days r)
        ≡ (if is_dead r then stock_line one r ∷ [] else [])
  unfolding dead_line
  dead_line_lem r =
      branches r.stock r.stock_days (threshold_days *ℤ pos one) (stock_line one r)
        (outcome_of outcomes r.meta.href)

  lines_of-append : (xs ys : List DeadStockLine) → lines_of (xs ++ ys) ≡ lines_of xs ++ lines_of ys
  unfolding lines_of
  lines_of-append [] ys = refl
  lines_of-append (x ∷ xs) ys = ap (◌∷◌ x.line) (lines_of-append xs ys)

  lines_of-dead_lines :
      (rows : List (StockRow Steps))
      → lines_of (dead_lines one outcomes threshold_days rows)
        ≡ map (stock_line one) (filter is_dead rows)
  unfolding dead_lines lines_of
  lines_of-dead_lines [] = refl
  lines_of-dead_lines (r ∷ rows) =
      lines_of-append (dead_line one outcomes threshold_days r)
        (dead_lines one outcomes threshold_days rows)
      ∙ rw (dead_line_lem r, lines_of-dead_lines rows) (split (is_dead r))
    where
      split :
          (b : Bool)
          → (if b then stock_line one r ∷ [] else []) ++ map (stock_line one) (filter is_dead rows)
            ≡ map (stock_line one) (if b then r ∷ filter is_dead rows else filter is_dead rows)
      split true = refl
      split false = refl

  -- The lines of a dead stock report stand for exactly the rows that are in stock, have been there
  -- for the threshold at least and have no known outcome: their number and their value are those of
  -- these rows.
  pub dead_stock-Dead :
      (rows : List (StockRow Steps))
      → (length (dead_stock one outcomes threshold_days rows) ≡ length (filter is_dead rows))
        × (sum_ℤ (λ x. x.line.stock_value) (dead_stock one outcomes threshold_days rows)
            ≡ sum_ℤ (λ r. (stock_line one r).stock_value) (filter is_dead rows))
  unfolding dead_stock descending lines_of
  dead_stock-Dead rows =
      let dead = dead_lines one outcomes threshold_days rows in
      let same = lines_of-dead_lines rows in
      (
        length-sort (is_ahead (λ x. x.line.stock_value)) dead
            ∙ sym (length-map (λ x. x.line) dead)
            ∙ ap length same
            ∙ length-map (stock_line one) (filter is_dead rows),
        sum_ℤ-sort (is_ahead (λ x. x.line.stock_value)) (λ x. x.line.stock_value) dead
            ∙ sym (sum_ℤ-map (λ l. l.stock_value) (λ x. x.line) dead)
            ∙ ap (sum_ℤ (λ l. l.stock_value)) same
            ∙ sum_ℤ-map (λ l. l.stock_value) (stock_line one) (filter is_dead rows),
      )
