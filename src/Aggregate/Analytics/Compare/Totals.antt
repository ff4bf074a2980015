-- ===== src/Aggregate/Analytics/Compare/Totals.antt =====
-- The sum of the values of a folded period.
use chic_mcp.Prelude.{
  ◌≡◌, refl, sym, ◌∙◌, true, false, List, [], ◌∷◌, ◌++◌, String, ◌==◌, string_eq, Bool-cases, inl,
  inr,
}
use chic_mcp.Prelude.Int.{ℤ, pos, ◌+ℤ◌, sum_ℤ, sum_from, sum_ℤ-cons, int_laws}
use chic_mcp.Prelude.Dict.{Dict, get, put, Distinct, put-Distinct}
use chic_mcp.Aggregate.Money.{Money}
use chic_mcp.Aggregate.Analytics.Compare.{get_or_zero, fold_into, total}

pub sum_nil {ℓ} : {A : Type ℓ} (f : A → ℤ) → sum_ℤ f [] ≡ pos 0
unfolding sum_ℤ sum_from
sum_nil f = refl

pub assoc : (a b c : ℤ) → a +ℤ (b +ℤ c) ≡ a +ℤ b +ℤ c
assoc a b c = omega int_laws

turn : (a b c : ℤ) → a +ℤ b +ℤ c ≡ a +ℤ c +ℤ b
turn a b c = omega int_laws

pub zero_left : (a : ℤ) → pos 0 +ℤ a ≡ a
zero_left a = omega int_laws

pub zero_right : (a : ℤ) → a +ℤ pos 0 ≡ a
zero_right a = omega int_laws

pub sum_append {ℓ} :
    {A : Type ℓ} (f : A → ℤ) (xs ys : List A) → sum_ℤ f (xs ++ ys) ≡ sum_ℤ f xs +ℤ sum_ℤ f ys
sum_append f [] ys = rw (sum_nil f) (sym (zero_left (sum_ℤ f ys)))
sum_append f (x ∷ xs) ys =
    rw (sum_ℤ-cons f x (xs ++ ys), sum_ℤ-cons f x xs, sum_append f xs ys)
      (assoc (f x) (sum_ℤ f xs) (sum_ℤ f ys))

pub total-nil : total [] ≡ pos 0
unfolding total sum_ℤ sum_from
total-nil = refl

pub total-cons :
    (k : String) (v : Money) (m : Dict String Money) → total ((k, v) ∷ m) ≡ v +ℤ total m
unfolding total
total-cons k v m = sum_ℤ-cons (λ e. e.1) (k, v) m

got_nil : (k : String) → get_or_zero [] k ≡ pos 0
unfolding get_or_zero get
got_nil k = refl

pub got_same :
    (j : String) (w : Money) (m : Dict String Money) (k : String)
    → j == k ≡ true
    → get_or_zero ((j, w) ∷ m) k ≡ w
unfolding get_or_zero get
got_same j w m k h = rw (h, get_or_zero, get) refl

pub got_other :
    (j : String) (w : Money) (m : Dict String Money) (k : String)
    → j == k ≡ false
    → get_or_zero ((j, w) ∷ m) k ≡ get_or_zero m k
unfolding get_or_zero get
got_other j w m k h = rw (h, get_or_zero, get) refl

total-put :
    (m : Dict String Money) (k : String) (v : Money)
    → total (put m k (get_or_zero m k +ℤ v)) ≡ total m +ℤ v
unfolding put
total-put [] k v = start
  where
    start : total ((k, get_or_zero [] k +ℤ v) ∷ []) ≡ total [] +ℤ v
    start =
        total-cons k (get_or_zero [] k +ℤ v) []
        ∙ rw (total-nil, got_nil k) (zero_right (pos 0 +ℤ v))
total-put ((i, w) ∷ m) k v = elim (Bool-cases (i == k)) [
  | inl same ↦
      rw (got_same i w m k same, same, put)
        (total-cons i (w +ℤ v) m ∙ rw (total-cons i w m) (turn w v (total m)))
  | inr other ↦
      rw (got_other i w m k other, other, put)
        (total-cons i w (put m k (get_or_zero m k +ℤ v))
          ∙ rw (total-cons i w m, total-put m k v) (assoc w (total m) v))
]

pub total-fold_into :
    (m : Dict String Money) (pairs : List (String × Money))
    → total (fold_into m pairs) ≡ total m +ℤ sum_ℤ (λ p. p.1) pairs
unfolding fold_into
total-fold_into m [] = rw (sum_nil {A = String × Money} (λ p. p.1)) (sym (zero_right (total m)))
total-fold_into m ((k, v) ∷ pairs) =
    total-fold_into (put m k (get_or_zero m k +ℤ v)) pairs
    ∙ rw (total-put m k v, sum_ℤ-cons (λ p. p.1) (k, v) pairs)
        (sym (assoc (total m) v (sum_ℤ (λ p. p.1) pairs)))

pub fold_into-Distinct :
    (m : Dict String Money) (pairs : List (String × Money))
    → Distinct m
    → Distinct (fold_into m pairs)
unfolding fold_into
fold_into-Distinct m [] d = d
fold_into-Distinct m ((k, v) ∷ pairs) d =
    fold_into-Distinct (put m k (get_or_zero m k +ℤ v)) pairs
      (put-Distinct m k (get_or_zero m k +ℤ v) d)
