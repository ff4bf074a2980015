-- ===== src/History/Store/Upsert.antt =====
-- What a batched upsert leaves in the table.
use chic_mcp.Prelude.{
  ℕ, zero, suc, ◌≤◌, ◌<◌, ◌≡◌, refl, sym, ap, ◌∙◌, true, false, Option, some, List, [], ◌∷◌, ◌++◌,
  String, length, length-drop, drop, take-append-drop, Bool-cases, ◌==◌, nat_eq, string_eq, pair_eq,
  if◌then◌else◌, arith, inl, inr,
}
use chic_mcp.Prelude.Dict.{Dict, get, put, get-put}
use chic_mcp.History.Store.{Key, chunks, execute, execute_all, upsert}

join {ℓ} : {A : Type ℓ} → List (List A) → List A
join [] = []
join (c ∷ cs) = c ++ join cs

join-chunks {ℓ} :
    {A : Type ℓ} (fuel : ℕ) (items : List A) (size : ℕ)
    → length items ≤ fuel
    → 0 < size
    → join (chunks fuel items size) ≡ items
unfolding join chunks
join-chunks zero [] size h p = refl
join-chunks zero (x ∷ items) size h p = absurd (omega arith)
join-chunks (suc fuel) [] size h p = refl
join-chunks (suc fuel) (x ∷ items) size h p =
    rw
      (join-chunks fuel (drop size (x ∷ items)) size (omega (arith, length-drop size (x ∷ items)))
        p)
      (take-append-drop size (x ∷ items))

module _ {ℓ} {R : Type ℓ} where
  execute-append :
      (date : ℕ) (xs ys : List (String × R)) (table : Dict Key R)
      → execute date (xs ++ ys) table ≡ execute date ys (execute date xs table)
  unfolding execute
  execute-append date [] ys table = refl
  execute-append date (x ∷ xs) ys table = execute-append date xs ys (put table (date, x.0) x.1)

  execute_all-join :
      (date : ℕ) (cs : List (List (String × R))) (table : Dict Key R)
      → execute_all date cs table ≡ execute date (join cs) table
  unfolding execute_all execute join
  execute_all-join date [] table = refl
  execute_all-join date (c ∷ cs) table =
      execute_all-join date cs (execute date c table) ∙ sym (execute-append date c (join cs) table)

  -- The batches of 500 together do what one statement with all the rows would do.
  pub upsert-execute :
      (date : ℕ) (rows : List (String × R)) (table : Dict Key R)
      → upsert date rows table ≡ (length rows, execute date rows table)
  unfolding upsert execute
  upsert-execute date [] table = refl
  upsert-execute date (r ∷ rows) table =
      ap (λ t. (length (r ∷ rows), t))
        (execute_all-join date (chunks (length (r ∷ rows)) (r ∷ rows) 500) table
          ∙ ap (λ l. execute date l table)
              (join-chunks (length (r ∷ rows)) (r ∷ rows) 500 (omega arith) (omega arith)))

-- The last row with this href.
abbrev pub last_row {ℓ} : {R : Type ℓ} → String → List (String × R) → Option R → Option R
last_row href [] old = old
last_row href ((k, row) ∷ rows) old = last_row href rows (if k == href then some row else old)

module _ {R : Type 0} where
  get-put_same :
      (table : Dict Key R) (date : ℕ) (k : String) (row : R) (day : ℕ) (href : String)
      → day == date ≡ true
      → get (put table (date, k) row) (day, href)
        ≡ (if k == href then some row else get table (day, href))
  get-put_same table date k row day href h = ground (arith, get-put table (date, k) (day, href) row)

  get-put_other :
      (table : Dict Key R) (date : ℕ) (k : String) (row : R) (day : ℕ) (href : String)
      → day == date ≡ false
      → get (put table (date, k) row) (day, href) ≡ get table (day, href)
  get-put_other table date k row day href h =
      ground (arith, get-put table (date, k) (day, href) row)

  pub get-execute :
      (date : ℕ) (rows : List (String × R)) (table : Dict Key R) (day : ℕ) (href : String)
      → get (execute date rows table) (day, href) ≡ (
          if day == date then last_row href rows (get table (day, href)) else get table (day, href))
  unfolding execute
  get-execute date [] table day href = ground arith
  get-execute date ((k, row) ∷ rows) table day href = elim (Bool-cases (day == date)) [
    | inl same ↦
        get-execute date rows (put table (date, k) row) day href
        ∙ rw (same, get-put_same table date k row day href same) refl
    | inr other ↦
        get-execute date rows (put table (date, k) row) day href
        ∙ rw (other, get-put_other table date k row day href other) refl
  ]

  -- After a day's rows are saved, a product of that day has the last row saved for it, or its old
  -- one if there is none, and no other day changes; the count returned is the number of rows.
  pub get-upsert :
      (date : ℕ) (rows : List (String × R)) (table : Dict Key R) (day : ℕ) (href : String)
      → let saved = upsert date rows table in
        (saved.0 ≡ length rows)
        × (get (saved.1) (day, href) ≡ (
            if day == date
            then last_row href rows (get table (day, href))
            else get table (day, href)))
  get-upsert date rows table day href =
      rw (upsert-execute date rows table) (refl, get-execute date rows table day href)
