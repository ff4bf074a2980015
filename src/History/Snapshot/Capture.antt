-- ===== src/History/Snapshot/Capture.antt =====
-- What a capture leaves in the store: rows as if they had all been saved, each processed day marked,
-- an interrupted run kept up to the call that raised, and nothing to do once a day is stored.
use chic_mcp.Prelude.{
  ℕ, ◌+◌, ◌≡◌, refl, sym, ap, subst, ◌∙◌, Bool, true, false, Option, none, some, List, [], ◌∷◌,
  ◌++◌, map, String, length, All, Bool-cases, ◌==◌, nat_eq, string_eq, pair_eq, if◌then◌else◌,
  arith, inl, inr,
}
use chic_mcp.Prelude.Dict.{Dict, get, put, get-put, Distinct, put-Distinct}
use chic_mcp.Prelude.Sets.{contains}
use chic_mcp.History.Store.{History, Key, upsert, save_sales, mark_sales_captured}
use chic_mcp.History.Store.Upsert.{last_row, get-upsert, upsert-execute}
use chic_mcp.Moysklad.Models.Reports.{ProfitByProductRow}
use chic_mcp.History.Snapshot.{Source, sales_row, by_key, dedupe, Ran, then_add, capture_days}

module _ {R : Type 0} where
  by_key-Distinct :
      (rows : List (String × R)) (m : Dict String R) → Distinct m → Distinct (by_key rows m)
  unfolding by_key
  by_key-Distinct [] m d = d
  by_key-Distinct ((k, row) ∷ rows) m d =
      by_key-Distinct rows (put m k row) (put-Distinct m k row d)

  get-by_key :
      (rows : List (String × R)) (m : Dict String R) (href : String)
      → get (by_key rows m) href ≡ last_row href rows (get m href)
  unfolding by_key
  get-by_key [] m href = refl
  get-by_key ((k, row) ∷ rows) m href =
      get-by_key rows (put m k row) href ∙ ap (last_row href rows) (get-put m k href row)

  abbrev pub or_old : Option R → Option R → Option R
  or_old none old = old
  or_old (some row) old = some row

  last_row-or_old :
      (href : String) (rows : List (String × R)) (first old : Option R)
      → last_row href rows (or_old first old) ≡ or_old (last_row href rows first) old
  last_row-or_old href [] first old = refl
  last_row-or_old href ((k, row) ∷ rows) first old = elim (Bool-cases (k == href)) [
    | inl same ↦ rw same (last_row-or_old href rows (some row) old)
    | inr other ↦ rw other (last_row-or_old href rows first old)
  ]

  last_row-Distinct :
      (m : Dict String R) (href : String) (old : Option R)
      → Distinct m
      → last_row href m old ≡ or_old (get m href) old
  unfolding get
  last_row-Distinct [] href old d = refl
  last_row-Distinct ((k, row) ∷ m) href old d = elim (Bool-cases (k == href)) [
    | inl same ↦
        let missing : get m href ≡ none =
          subst (λ i. get m i ≡ none) ((string_eq.same_iff k href).0 same) d.0 in
        rw same (last_row-Distinct m href (some row) d.1 ∙ ap (λ o. or_old o (some row)) missing)
    | inr other ↦ rw other (last_row-Distinct m href old d.1)
  ]

  -- The rows kept for a day have distinct keys, and saving them leaves what saving all of them in
  -- turn would leave: for each product its last row.
  pub dedupe-upsert :
      (date : ℕ) (rows : List (String × R)) (table : Dict Key R) (day : ℕ) (href : String)
      → Distinct (dedupe rows)
        × (get ((upsert date (dedupe rows) table).1) (day, href)
            ≡ get ((upsert date rows table).1) (day, href))
  unfolding dedupe get
  dedupe-upsert date rows table day href =
      let d = by_key-Distinct rows [] tt in
      let old = get table (day, href) in
      let same : last_row href (dedupe rows) old ≡ last_row href rows old =
        last_row-Distinct (dedupe rows) href old d
        ∙ ap (λ o. or_old o old) (get-by_key rows [] href)
        ∙ sym (last_row-or_old href rows none old) in
      (
        d,
        (get-upsert date (dedupe rows) table day href).1
            ∙ ap (λ o. if day == date then o else old) same
            ∙ sym ((get-upsert date rows table day href).1),
      )

module _ {N : Type 0} where
  pub then_add-ran :
      (n : ℕ) (r : Ran N) → ((m : ℕ) × (r.0 ≡ some m)) → (m : ℕ) × ((then_add n r).0 ≡ some m)
  unfolding then_add
  then_add-ran n (none, h) (m, e) = absurd (ground arith)
  then_add-ran n (some w, h) (m, e) = (n + w, refl)

  pub then_add-store : (n : ℕ) (r : Ran N) → (then_add n r).1 ≡ r.1
  unfolding then_add
  then_add-store n (none, h) = refl
  then_add-store n (some w, h) = refl

  -- The store after one day of the loop.
  after_day : List (ProfitByProductRow N) → ℕ → History N → History N
  unfolding save_sales mark_sales_captured
  after_day rows day h =
      let saved = save_sales day (dedupe (map sales_row rows)) h in
      mark_sales_captured day (saved.0) (saved.1)

  captures-after_day :
      (rows : List (ProfitByProductRow N)) (day : ℕ) (h : History N) (d : ℕ)
      → get ((after_day rows day h).captures) d
        ≡ (if day == d then some (length (dedupe (map sales_row rows))) else get h.captures d)
  unfolding after_day save_sales mark_sales_captured
  captures-after_day rows day h d =
      get-put h.captures day d ((upsert day (dedupe (map sales_row rows)) h.sales).0)
      ∙ rw (upsert-execute day (dedupe (map sales_row rows)) h.sales) refl

module _ {N : Type 0} (api : Source N) (rows : ℕ → List (ProfitByProductRow N)) where
  -- The number of rows a day has.
  abbrev pub size : ℕ → ℕ
  size d = length (dedupe (map sales_row (rows d)))

  -- The API answers for these days.
  abbrev pub Answers : List ℕ → Type 0
  Answers days = All (λ d. api.profit_by_product d ≡ some (rows d)) days

  capture_days-day :
      (x : ℕ) (days : List ℕ) (h : History N)
      → api.profit_by_product x ≡ some (rows x)
      → capture_days api (x ∷ days) h
        ≡ then_add
            ((save_sales x (dedupe (map sales_row (rows x))) h).0)
            (capture_days api days (after_day (rows x) x h))
  unfolding capture_days after_day
  capture_days-day x days h answer = rw (answer, capture_days) refl

  size_merge :
      (x d : ℕ) (c : Bool) (o : Option ℕ)
      → (if c then some (size d) else (if x == d then some (size x) else o))
        ≡ (if (if x == d then true else c) then some (size d) else o)
  size_merge x d true o = ground arith
  size_merge x d false o = elim (Bool-cases (x == d)) [
    | inl same ↦ rw (same, ap size ((nat_eq.same_iff x d).0 same)) refl
    | inr other ↦ rw other refl
  ]

  pub capture_days-marks :
      (days : List ℕ) (h : History N) (d : ℕ)
      → Answers days
      → let ran = capture_days api days h in
        ((n : ℕ) × (ran.0 ≡ some n))
        × (get ((ran.1).captures) d ≡ (if contains days d then some (size d) else get h.captures d))
  unfolding contains capture_days
  capture_days-marks [] h d answers = ((0, refl), refl)
  capture_days-marks (x ∷ days) h d answers =
      let n = (save_sales x (dedupe (map sales_row (rows x))) h).0 in
      let next = after_day (rows x) x h in
      let rest = capture_days-marks days next d answers.1 in
      rw (capture_days-day x days h answers.0) (
        then_add-ran n (capture_days api days next) rest.0,
        ap (λ t. get (t.captures) d) (then_add-store n (capture_days api days next))
            ∙ rest.1
            ∙ ap (λ o. if contains days d then some (size d) else o)
                (captures-after_day (rows x) x h d)
            ∙ size_merge x d (contains days d) (get h.captures d),
      )

  -- An answer that does not come ends the run with what the days before it left, and without a
  -- number of rows.
  pub capture_days-raises :
      (days rest : List ℕ) (day : ℕ) (h : History N)
      → Answers days
      → api.profit_by_product day ≡ none
      → capture_days api (days ++ day ∷ rest) h ≡ (none, (capture_days api days h).1)
  unfolding capture_days then_add
  capture_days-raises [] rest day h answers missing = rw (missing, capture_days) refl
  capture_days-raises (x ∷ days) rest day h answers missing =
      let n = (save_sales x (dedupe (map sales_row (rows x))) h).0 in
      let next = after_day (rows x) x h in
      capture_days-day x (days ++ day ∷ rest) h answers.0
      ∙ ap (then_add n) (capture_days-raises days rest day next answers.1 missing)
      ∙ ap (λ t. (none, t))
          (sym (then_add-store n (capture_days api days next))
            ∙ sym (ap (λ r. r.1) (capture_days-day x days h answers.0)))
