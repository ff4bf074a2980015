-- ===== src/History/Snapshot/Run.antt =====
-- One whole run of `capture`: which days it marks, and when it has nothing to do.
use chic_mcp.Prelude.{
  ℕ, suc, ◌+◌, ◌≤◌, ◌<◌, ◌≡◌, refl, ap, ◌∙◌, true, ◌&&◌, some, List, [], map, Bool-cases, leb, ltb,
  nat_eq, if◌then◌else◌, inl, inr,
}
use chic_mcp.Prelude.Int.{ℤ}
use chic_mcp.Prelude.Dict.{get}
use chic_mcp.History.Days.{window_size, sales_days}
use chic_mcp.History.Days.Window.{is_after, contains-sales_days, sales_days-nil}
use chic_mcp.History.Store.{History, save_stock, latest_sales_date, has_stock}
use chic_mcp.Moysklad.Models.Reports.{StockRow, ProfitByProductRow}
use chic_mcp.History.Snapshot.{
  Source, stock_row, dedupe, then_add, capture_days, capture_stock, capture,
}
use chic_mcp.History.Snapshot.Capture.{
  Answers, size, capture_days-marks, then_add-ran, then_add-store,
}

module _ {N : Type 0} (to_int : N → ℤ) (api : Source N) (now : ℕ) (max_backfill_days : ℤ) where
  -- The days that a run on this store fetches.
  abbrev pub days_of : History N → List ℕ
  days_of h = sales_days now max_backfill_days (latest_sales_date h)

  -- Stock is there already and the newest day with sales is yesterday or later: the run asks
  -- nothing, writes nothing and returns 0.
  pub capture-Idle :
      (h : History N) (last : ℕ)
      → 0 < now
      → has_stock now h ≡ true
      → latest_sales_date h ≡ some last
      → now ≤ suc last
      → capture to_int api now max_backfill_days h ≡ (some 0, h)
  unfolding capture capture_days then_add
  capture-Idle h last positive stocked newest recent =
      let none_left : days_of h ≡ [] =
        ap (sales_days now max_backfill_days) newest
        ∙ sales_days-nil now max_backfill_days last positive recent in
      rw (stocked, capture) (ap (λ days. then_add 0 (capture_days api days h)) none_left)

  module _ (rows : ℕ → List (ProfitByProductRow N)) (stock : List (StockRow N))
      (stocked : api.get_stock ≡ some stock) where
    -- The shape of the statement below, for a run that has the stock already.
    marks_from :
        (n : ℕ) (h : History N) (d : ℕ)
        → window_size max_backfill_days ≤ now
        → Answers api rows (days_of h)
        → let ran = then_add n (capture_days api (days_of h) h) in
          ((n : ℕ) × (ran.0 ≡ some n))
          × (get ((ran.1).captures) d ≡ (
              if ltb d now
                && (leb now (d + window_size max_backfill_days) && is_after (latest_sales_date h) d)
              then some (size api rows d)
              else get h.captures d))
    marks_from n h d wide answers =
        let marks = capture_days-marks api rows (days_of h) h d answers in
        (
          then_add-ran n (capture_days api (days_of h) h) marks.0,
          ap (λ t. get (t.captures) d) (then_add-store n (capture_days api (days_of h) h))
              ∙ marks.1
              ∙ ap (λ b. if b then some (size api rows d) else get h.captures d)
                  ((contains-sales_days now max_backfill_days (latest_sales_date h) d wide).0),
        )

    stock_saved : List (StockRow N) → History N → ℕ × History N
    stock_saved rows h = save_stock now (dedupe (map (stock_row to_int) rows)) h

    capture_stock-answer :
        (h : History N)
        → capture_stock to_int api now h ≡ (some ((stock_saved stock h).0), (stock_saved stock h).1)
    unfolding capture_stock stock_saved
    capture_stock-answer h = rw (stocked, capture_stock) refl

    -- If every call answers, the run returns a number and marks exactly the days that are over, lie
    -- within the window and come after the newest day with sales, each with the number of its rows
    -- (0 for a day without sales); every other mark stays.
    pub capture-marks :
        (h : History N) (d : ℕ)
        → window_size max_backfill_days ≤ now
        → Answers api rows (days_of h)
        → let ran = capture to_int api now max_backfill_days h in
          ((n : ℕ) × (ran.0 ≡ some n))
          × (get ((ran.1).captures) d ≡ (
              if ltb d now
                && (leb now (d + window_size max_backfill_days) && is_after (latest_sales_date h) d)
              then some (size api rows d)
              else get h.captures d))
    unfolding capture stock_saved latest_sales_date save_stock
    capture-marks h d wide answers = elim (Bool-cases (has_stock now h)) [
      | inl present ↦ rw (present, capture) (marks_from 0 h d wide answers)
      | inr missing ↦
          rw (missing, capture_stock-answer h, capture)
            (marks_from ((stock_saved stock h).0) ((stock_saved stock h).1) d wide answers)
    ]
