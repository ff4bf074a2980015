-- ===== src/Moysklad/Client/Pages/Complete.antt =====
-- Against an API that serves slices of a list, `_paginate` returns the list, or its first rows.
use native.Mathlib.Decide.{dec_lt}
use native.Mathlib.Nat.{suc-add, zero-mul}
use chic_mcp.Prelude.{
  ℕ, zero, suc, ◌+◌, ◌-◌, ◌*◌, ◌/◌, ◌≤◌, ◌<◌, ◌≡◌, refl, ap, ◌∙◌, ◌⊎◌, ◌&&◌, Option, none, some,
  List, [], ◌∷◌, ◌++◌, ltb, leb, length, take, drop, min, if◌then◌else◌, arith, length-take,
  length-drop, take_of_length-le,
}
use chic_mcp.Prelude.Int.{ℤ, pos_part}
use chic_mcp.Moysklad.Client.Pages.{
  ListResponse, Outcome, returned, page_size_of, after_page, pages, paginate,
}

module _ {A : Type 0} where
  -- The API answers a page request by that slice of its rows; the size that it reports is the number
  -- of rows, or absent (0).
  pub record Serves (fetch : ℕ → ℕ → Option (ListResponse A)) (all : List A) : Type 0 where
    pub size : ℕ
    pub reported : (size ≡ 0) ⊎ (size ≡ length all)
    pub page :
        (limit offset : ℕ)
        → fetch limit offset ≡ some (record { rows = take limit (drop offset all); size = size })

  -- The rows that come back: the limit cuts them only where full pages reach it.
  abbrev pub cut : ℕ → ℤ → List A → List A
  cut page_size total_limit all =
      if ltb 0 (pos_part total_limit)
        && leb (pos_part total_limit) (length all / page_size * page_size)
      then take (pos_part total_limit) all
      else all

  take-nil : (n : ℕ) → take {A = A} n [] ≡ []
  take-nil zero = refl
  take-nil (suc n) = refl

  take-add : (m n : ℕ) (xs : List A) → take m xs ++ take n (drop m xs) ≡ take (m + n) xs
  take-add zero n xs = ap (λ k. take k xs) (omega arith)
  take-add (suc m) n [] = rw suc-add (take-nil n)
  take-add (suc m) n (x ∷ xs) = rw suc-add (ap (◌∷◌ x) (take-add m n xs))

  take-take : (m n : ℕ) (xs : List A) → m ≤ n → take m (take n xs) ≡ take m xs
  take-take zero n xs h = refl
  take-take (suc m) zero xs h = absurd (omega arith)
  take-take (suc m) (suc n) [] h = refl
  take-take (suc m) (suc n) (x ∷ xs) h = ap (◌∷◌ x) (take-take m n xs (omega arith))

page_size_of-pos :
    (page_limit : ℕ) (page_size : Option ℕ) (total_limit : ℤ)
    → 0 < page_limit
    → 0 < page_size_of page_limit page_size total_limit
unfolding page_size_of
page_size_of-pos page_limit none total_limit h = ground arith
page_size_of-pos page_limit (some zero) total_limit h = ground arith
page_size_of-pos page_limit (some (suc n)) total_limit h = ground arith

page_size_of-le :
    (page_limit : ℕ) (page_size : Option ℕ) (total_limit : ℤ)
    → 0 < pos_part total_limit
    → page_size_of page_limit page_size total_limit ≤ pos_part total_limit
unfolding page_size_of
page_size_of-le page_limit none total_limit h = ground arith
page_size_of-le page_limit (some zero) total_limit h = ground arith
page_size_of-le page_limit (some (suc n)) total_limit h = ground arith

times_mono : (a b p : ℕ) → a ≤ b → a * p ≤ b * p
times_mono a b p h = grind arith

aligned_le : (i q p n : ℕ) → suc i * p ≤ n → n < suc q * p → suc i * p ≤ q * p
aligned_le i q p n h k = elim (dec_lt i q) [
  | yes l ↦ times_mono (suc i) q p l
  | no g ↦ absurd (omega (arith, times_mono (suc q) (suc i) p (omega arith)))
]

aligned_ge : (i q p n : ℕ) → n < suc i * p → q * p ≤ n → q * p ≤ i * p
aligned_ge i q p n h k = elim (dec_lt i q) [
  | yes l ↦ absurd (omega (arith, times_mono (suc i) q p l))
  | no g ↦ times_mono q i p (omega arith)
]

division : (n p : ℕ) → 0 < p → (n / p * p ≤ n) × (n < suc (n / p) * p)
division n p h = grind arith

step : (i p : ℕ) → i * p + p ≡ suc i * p
step i p = omega arith

module _ {A : Type 0} (fetch : ℕ → ℕ → Option (ListResponse A)) (all : List A)
    (serves : Serves fetch all) (page_size : ℕ) (positive : 0 < page_size) (total_limit : ℤ) where
  -- One page of the loop, on the rows up to and with it.
  after_page-cut :
      (i : ℕ) (continue : List A → ℕ → Outcome A)
      → i * page_size ≤ length all
      → (0 < pos_part total_limit → i * page_size < pos_part total_limit)
      → (suc i * page_size ≤ length all
          → (0 < pos_part total_limit → suc i * page_size < pos_part total_limit)
          → continue (take (suc i * page_size) all) (suc i * page_size)
            ≡ returned (cut page_size total_limit all))
      → after_page page_size total_limit
          (i * page_size)
          (record { rows = take page_size (drop (i * page_size) all); size = serves.size })
          (take (suc i * page_size) all)
          continue
        ≡ returned (cut page_size total_limit all)
  unfolding after_page
  after_page-cut i continue within below rest =
      let len = length all in
      let page_rows : length (take page_size (drop (i * page_size) all))
          ≡ min page_size (len - i * page_size) =
        length-take page_size (drop (i * page_size) all)
        ∙ ap (min page_size) (length-drop (i * page_size) all) in
      let so_far : length (take (suc i * page_size) all) ≡ min (suc i * page_size) len =
        length-take (suc i * page_size) all in
      let (full, over) = division len page_size positive in
      ground (
        arith,
        page_rows,
        so_far,
        full,
        over,
        serves.reported,
        aligned_le i (len / page_size) page_size len,
        aligned_ge i (len / page_size) page_size len,
        take_of_length-le (suc i * page_size) all,
        take-take (pos_part total_limit) (suc i * page_size) all,
        ap (λ k. continue (take (suc i * page_size) all) k) (step i page_size),
      )

  pages-cut :
      (fuel i : ℕ)
      → i * page_size ≤ length all
      → (0 < pos_part total_limit → i * page_size < pos_part total_limit)
      → length all < i * page_size + fuel
      → pages fetch page_size total_limit fuel (take (i * page_size) all) (i * page_size)
        ≡ returned (cut page_size total_limit all)
  unfolding pages
  pages-cut zero i within below enough = absurd (omega arith)
  pages-cut (suc fuel) i within below enough =
      let so_far : take (i * page_size) all ++ take page_size (drop (i * page_size) all)
          ≡ take (suc i * page_size) all =
        take-add (i * page_size) page_size all ∙ ap (λ k. take k all) (step i page_size) in
      rw (serves.page page_size (i * page_size), pages, so_far)
        (after_page-cut i (pages fetch page_size total_limit fuel) within below
          λ w b. pages-cut fuel (suc i) w b (omega (arith, step i page_size)))

module _ {A : Type 0} (fetch : ℕ → ℕ → Option (ListResponse A)) (all : List A)
    (serves : Serves fetch all) (page_limit : ℕ) (positive : 0 < page_limit) (page_size : Option ℕ)
    (total_limit : ℤ) where
  -- `_paginate` ends within one round more than there are rows, and returns every row, or the first
  -- `total_limit` ones where the limit is positive and the full pages hold as many.
  pub paginate-cut :
      (fuel : ℕ)
      → length all < fuel
      → paginate fetch page_limit page_size total_limit fuel
        ≡ returned (cut (page_size_of page_limit page_size total_limit) total_limit all)
  unfolding paginate
  paginate-cut fuel enough =
      let p = page_size_of page_limit page_size total_limit in
      rw (zero-mul p) at (
        pages-cut fetch all serves p (page_size_of-pos page_limit page_size total_limit positive)
          total_limit fuel 0 (omega arith) (λ h. omega arith) (omega arith))

cut-take :
    {A : Type 0} (n : ℕ) (total_limit : ℤ) (all : List A)
    → n ≡ pos_part total_limit
    → 0 < n
    → cut n total_limit all ≡ take n all
cut-take n total_limit all e h =
    let (full, over) = division (length all) n h in
    ground
      (arith, full, over, aligned_le 0 (length all / n) n (length all), take_of_length-le n all)

module _ {A : Type 0} (fetch : ℕ → ℕ → Option (ListResponse A)) (all : List A)
    (serves : Serves fetch all) (page_limit : ℕ) (positive : 0 < page_limit) (total_limit : ℤ) where
  -- A positive limit of at most one page is honoured: the first `total_limit` rows come back.
  pub paginate-take :
      (fuel : ℕ)
      → length all < fuel
      → 0 < pos_part total_limit
      → pos_part total_limit ≤ page_limit
      → paginate fetch page_limit none total_limit fuel ≡ returned (take (pos_part total_limit) all)
  paginate-take fuel enough some_limit fits =
      let e : page_size_of page_limit none total_limit ≡ pos_part total_limit =
        unfold page_size_of in ground arith in
      paginate-cut fetch all serves page_limit positive none total_limit fuel enough
      ∙ ap returned (
          cut-take (page_size_of page_limit none total_limit) total_limit all e (omega (arith, e))
          ∙ ap (λ k. take k all) e)

  -- A limit beyond the full pages is not: where it lies strictly between the rows of the full pages
  -- and all rows, every row comes back, more than the limit.
  pub paginate_overshoots :
      (fuel : ℕ)
      → length all < fuel
      → page_limit ≤ pos_part total_limit
      → length all / page_limit * page_limit < pos_part total_limit
      → pos_part total_limit < length all
      → (rows : List A) × (paginate fetch page_limit none total_limit fuel ≡ returned rows)
        × (pos_part total_limit < length rows)
  paginate_overshoots fuel enough large beyond short =
      let e : page_size_of page_limit none total_limit ≡ page_limit =
        unfold page_size_of in ground arith in
      let all_rows : cut page_limit total_limit all ≡ all = ground arith in
      (
        all,
        paginate-cut fetch all serves page_limit positive none total_limit fuel enough
            ∙ rw e (ap returned all_rows),
        short,
      )
