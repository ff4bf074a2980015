-- ===== src/Moysklad/Client/Pages.antt =====
-- `MoyskladClient._paginate` and `account_currency` of chic/moysklad/client.py. `fetch` stands for a
-- request of one page with its parsing; `none` is an exception that it raises.
pub mod Complete
use chic_mcp.Moysklad.Models.Entities.{Currency}
use chic_mcp.Prelude.{
  ℕ, zero, suc, ◌+◌, Bool, true, false, ◌&&◌, Option, none, some, List, [], ◌∷◌, ◌++◌, length, take,
  ltb, leb, if◌then◌else◌,
}
use chic_mcp.Prelude.Int.{ℤ, pos_part}

-- `ListResponse` with its `meta.size`.
pub record ListResponse {ℓ} (A : Type ℓ) : Type ℓ where
  pub rows : List A
  pub size : ℕ

-- How a call ends: with the rows, with the exception of a page, or not within the fuel.
pub data Outcome {ℓ} (A : Type ℓ) : Type ℓ where
  returned : List A → Outcome A
  raised : Outcome A
  out_of_fuel : Outcome A

-- `page_size or self._page_limit`, capped by a positive total limit.
unfoldable pub page_size_of : ℕ → Option ℕ → ℤ → ℕ
page_size_of page_limit page_size total_limit =
    let size : ℕ = elim page_size [
      | none ↦ page_limit
      | some zero ↦ page_limit
      | some (suc n) ↦ suc n
    ] in
    if ltb 0 (pos_part total_limit) && ltb (pos_part total_limit) size
    then pos_part total_limit
    else size

module _ {ℓ} {A : Type ℓ} where
  -- The tests behind `rows.extend(page.rows)`; `continue` is the rest of the loop.
  unfoldable pub after_page :
      ℕ → ℤ → ℕ → ListResponse A → List A → (List A → ℕ → Outcome A) → Outcome A
  after_page page_size total_limit offset page rows continue =
      if ltb (length page.rows) page_size
      then returned rows
      else if ltb 0 (pos_part total_limit) && leb (pos_part total_limit) (length rows)
      then returned (take (pos_part total_limit) rows)
      else if ltb 0 page.size && leb page.size (offset + page_size)
      then returned rows
      else continue rows (offset + page_size)

  unfoldable pub pages : (ℕ → ℕ → Option (ListResponse A)) → ℕ → ℤ → ℕ → List A → ℕ → Outcome A
  unfolding after_page
  pages fetch page_size total_limit zero rows offset = out_of_fuel
  pages fetch page_size total_limit (suc fuel) rows offset = elim (fetch page_size offset) [
    | none ↦ raised
    | some page ↦
        after_page page_size total_limit offset page (rows ++ page.rows)
          (pages fetch page_size total_limit fuel)
  ]

  -- `_paginate`
  unfoldable pub paginate : (ℕ → ℕ → Option (ListResponse A)) → ℕ → Option ℕ → ℤ → ℕ → Outcome A
  unfolding page_size_of pages
  paginate fetch page_limit page_size total_limit fuel =
      pages fetch (page_size_of page_limit page_size total_limit) total_limit fuel [] 0

-- `MoyskladClient.__init__`: a page limit that is not positive gives the default.
abbrev pub default_page_limit : ℕ
default_page_limit = 1000

unfoldable pub init_page_limit : ℤ → ℕ
init_page_limit n = if ltb 0 (pos_part n) then pos_part n else default_page_limit

first_default : List Currency → Option Currency
first_default [] = none
first_default (row ∷ rows) = if row.is_default then some row else first_default rows

-- `account_currency` on the rows that were fetched; `none` is its MoyskladError.
unfoldable pub account_currency : List Currency → Option Currency
unfolding first_default
account_currency [] = none
account_currency (row ∷ rows) = elim (first_default (row ∷ rows)) [
  | some c ↦ some c
  | none ↦ some row
]
