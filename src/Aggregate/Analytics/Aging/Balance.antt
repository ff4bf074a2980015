-- ===== src/Aggregate/Analytics/Aging/Balance.antt =====
-- The buckets of an aging report balance with its totals.
use chic_mcp.Prelude.{
  ℕ, suc, zero, ◌<◌, ◌≡◌, refl, sym, ap, ◌∙◌, Bool, Option, List, [], ◌∷◌, String, length,
  length-append, sum_of, drop, ltb, Bool-cases, inl, inr, arith, if◌then◌else◌,
}
use chic_mcp.Prelude.Int.{ℤ, pos, ◌+ℤ◌, leb_ℤ, ltb_ℤ, sum_ℤ, sum_from, sum_ℤ-cons, int_laws}
use chic_mcp.Moysklad.Models.Papers.{Document}
use chic_mcp.Aggregate.Money.{Money, Steps}
use chic_mcp.Aggregate.Models.Findings.{AgingBucket}
use chic_mcp.Aggregate.Analytics.Aging.{
  bucket_index, empty_buckets, empty_bucket, bump, Ledger, overdue_days, outstanding_of, enter,
  enter_all, empty_ledger, receivables_aging,
}

abbrev pub amount_of : List AgingBucket → Money
amount_of buckets = sum_ℤ (λ b. b.amount) buckets

amount_of-bump :
    (bi : ℕ) (o : Money) (buckets : List AgingBucket)
    → bi < length buckets
    → amount_of (bump bi o buckets) ≡ amount_of buckets +ℤ o
unfolding bump
amount_of-bump bi o [] h = absurd (omega arith)
amount_of-bump zero o (b ∷ buckets) h = rw (sum_ℤ-cons (λ c. c.amount) b buckets) (
    sum_ℤ-cons (λ c. c.amount)
      (record { label = b.label; count = suc b.count; amount = b.amount +ℤ o }) buckets
    ∙ turn (b.amount) o (sum_ℤ (λ c. c.amount) buckets))
  where
    turn : (a b c : ℤ) → a +ℤ b +ℤ c ≡ a +ℤ c +ℤ b
    turn a b c = omega int_laws
amount_of-bump (suc bi) o (b ∷ buckets) h =
    rw (sum_ℤ-cons (λ c. c.amount) b buckets, sum_ℤ-cons (λ c. c.amount) b (bump bi o buckets))
      (ap (◌+ℤ◌ b.amount) (amount_of-bump bi o buckets (omega arith))
        ∙ regroup b.amount (amount_of buckets) o)
  where
    regroup : (a b c : ℤ) → a +ℤ (b +ℤ c) ≡ a +ℤ b +ℤ c
    regroup a b c = omega int_laws

length-bump :
    (bi : ℕ) (o : Money) (buckets : List AgingBucket) → length (bump bi o buckets) ≡ length buckets
unfolding bump
length-bump bi o [] = refl
length-bump zero o (b ∷ buckets) = refl
length-bump (suc bi) o (b ∷ buckets) = ap suc (length-bump bi o buckets)

count-bump :
    (bi : ℕ) (o : Money) (buckets : List AgingBucket)
    → bi < length buckets
    → sum_of (λ b. b.count) (bump bi o buckets) ≡ suc (sum_of (λ b. b.count) buckets)
unfolding bump
count-bump bi o [] h = absurd (omega arith)
count-bump zero o (b ∷ buckets) h = omega arith
count-bump (suc bi) o (b ∷ buckets) h = omega (arith, count-bump bi o buckets)

-- What a bump does to the buckets after the first.
overdue-bump :
    (bi : ℕ) (o : Money) (buckets : List AgingBucket)
    → bi < length buckets
    → amount_of (drop 1 (bump bi o buckets))
      ≡ (if ltb 0 bi then amount_of (drop 1 buckets) +ℤ o else amount_of (drop 1 buckets))
unfolding bump
overdue-bump bi o [] h = absurd (omega arith)
overdue-bump zero o (b ∷ buckets) h = ground arith
overdue-bump (suc bi) o (b ∷ buckets) h = amount_of-bump bi o buckets (omega arith) ∙ ground arith

bucket_index-bounds :
    (days : ℤ) → (bucket_index days < 5) × (ltb 0 (bucket_index days) ≡ ltb_ℤ (pos 0) days)
unfolding bucket_index
bucket_index-bounds days = ground arith

abbrev pub Balanced : List AgingBucket → ℕ → Money → Money → Type 0
Balanced buckets count outstanding overdue =
    (length buckets ≡ 5)
    × (amount_of buckets ≡ outstanding)
    × (amount_of (drop 1 buckets) ≡ overdue)
    × (sum_of (λ b. b.count) buckets ≡ count)

abbrev pub IsBalanced : Ledger → Type 0
IsBalanced l = Balanced l.buckets (length l.items) l.total_outstanding l.total_overdue

moved :
    {c d : Bool} {a b : ℤ} (x : ℤ)
    → c ≡ d
    → a ≡ b
    → (if c then a +ℤ x else a) ≡ (if d then b +ℤ x else b)
moved x p q = rw (p, q) refl

start :
    (length empty_buckets ≡ 5)
    × (amount_of empty_buckets ≡ pos 0)
    × (amount_of (drop 1 empty_buckets) ≡ pos 0)
    × (sum_of (λ b. b.count) empty_buckets ≡ 0)
unfolding empty_buckets empty_bucket sum_ℤ sum_from ◌+ℤ◌
start = (refl, refl, refl, refl)

module _ (one : ℕ) (parse_time : String → Option ℕ) (now : ℕ) where
  enter-IsBalanced :
      (l : Ledger) (d : Document Steps) → IsBalanced l → IsBalanced (enter one parse_time now l d)
  unfolding enter
  enter-IsBalanced l d (len, all, late, count) =
      let days = overdue_days one parse_time now d.payment_planned_moment in
      let outstanding = outstanding_of one parse_time now d in
      let (below, same) = bucket_index-bounds days in
      let within : bucket_index days < length l.buckets = omega (arith, len, below) in
      elim (Bool-cases (leb_ℤ outstanding (pos 0))) [
        | inl settled ↦ rw (settled, enter) (len, all, late, count)
        | inr unpaid ↦
            rw (unpaid, enter)
              (
                length-bump (bucket_index days) outstanding l.buckets ∙ len,
                amount_of-bump (bucket_index days) outstanding l.buckets within
                    ∙ ap (λ t. t +ℤ outstanding) all,
                overdue-bump (bucket_index days) outstanding l.buckets within
                    ∙ moved outstanding same late,
                count-bump (bucket_index days) outstanding l.buckets within
                    ∙ ap suc count
                    ∙ sym (length-append l.items (_ ∷ []) ∙ omega arith),
              )
      ]

  enter_all-IsBalanced :
      (l : Ledger) (docs : List (Document Steps))
      → IsBalanced l
      → IsBalanced (enter_all one parse_time now l docs)
  unfolding enter_all
  enter_all-IsBalanced l [] b = b
  enter_all-IsBalanced l (d ∷ docs) b =
      enter_all-IsBalanced (enter one parse_time now l d) docs (enter-IsBalanced l d b)

  -- Whatever the documents and the limit: there are five buckets, their amounts add up to the total
  -- outstanding, those after the first to the total overdue, and their counts to the number of items.
  pub receivables_aging-Balanced :
      (docs : List (Document Steps)) (limit : ℤ)
      → let aging = receivables_aging one parse_time now docs limit in
        Balanced aging.buckets aging.item_count aging.total_outstanding aging.total_overdue
  unfolding receivables_aging empty_ledger
  receivables_aging-Balanced docs limit =
      enter_all-IsBalanced (empty_ledger one parse_time now) docs start
