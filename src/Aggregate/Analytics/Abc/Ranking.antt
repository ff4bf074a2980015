-- ===== src/Aggregate/Analytics/Abc/Ranking.antt =====
-- The ranking that an ABC analysis returns.
use mathlib.Core.List.{Perm}
use native.Mathlib.Nat.{mul-le-mul_right}
use chic_mcp.Prelude.{
  map, ap, filter, ℕ, ◌+◌, ◌*◌, ◌≤◌, ◌≡◌, refl, Bool, true, false, List, [], ◌∷◌, String, All,
  leb→le, ◌==◌, string_eq, arith, if◌then◌else◌,
}
use chic_mcp.Prelude.Int.{ℤ, pos, pos_part, neg_part, ◌+ℤ◌, ◌*ℤ◌, ◌≤ℤ◌, leb_ℤ, sum_ℤ, +ℤ_parts}
use chic_mcp.Prelude.Sort.{IsSorted, sort-IsSorted, sort-perm}
use chic_mcp.Aggregate.Money.{Money}
use chic_mcp.Aggregate.Models.Findings.{AbcItem}
use chic_mcp.Aggregate.Envelope.{descending}
use chic_mcp.Aggregate.Analytics.Abc.{positive, cuts, within, class_of, classify, abc}

-- The place of a class: A, B, then C.
abbrev pub class_rank : String → ℕ
class_rank c = if c == "A" then 0 else if c == "B" then 1 else 2

-- The item has no higher value than `v` and no better class than `c`.
abbrev pub NotAbove : Money → String → AbcItem → Type 0
NotAbove v c y = (y.value ≤ℤ v) × (class_rank c ≤ class_rank y.abc_class)

abbrev pub IsRanked : List AbcItem → Type 0
IsRanked [] = Unit
IsRanked (x ∷ xs) = All (NotAbove x.value x.abc_class) xs × IsRanked xs

scale_parts :
    (a : ℤ) (n : ℕ)
    → pos_part (a *ℤ pos n) + neg_part a * n ≡ neg_part (a *ℤ pos n) + pos_part a * n
unfolding ◌*ℤ◌
scale_parts a n = ground arith

scale_mono : (a b : ℤ) (n : ℕ) → a ≤ℤ b → (a *ℤ pos n) ≤ℤ (b *ℤ pos n)
scale_mono a b n h = omega (
  arith,
  scale_parts a n,
  scale_parts b n,
  mul-le-mul_right {m = pos_part a + neg_part b} {n = pos_part b + neg_part a} n h,
)

-- A larger sum is within a cut only where the smaller one is.
within-le :
    (one : ℕ) (c d total : ℤ) (cut : ℕ)
    → c ≤ℤ d
    → within one d total cut ≡ true
    → within one c total cut ≡ true
unfolding within
within-le one c d total cut h w = ground (arith, scale_mono c d one h)

-- The class by the three tests of a value
abbrev pick : Bool → Bool → Bool → String
pick p a b = if p then (if a then "A" else if b then "B" else "C") else "C"

rank_pick :
    (p a b : Bool)
    → class_rank (pick p a b) ≡ (if p then (if a then 0 else if b then 1 else 2) else 2)
rank_pick false a b = refl
rank_pick true true b = refl
rank_pick true false true = refl
rank_pick true false false = refl

pick_mono :
    (p a b q c d : Bool)
    → (q ≡ true → p ≡ true)
    → (c ≡ true → a ≡ true)
    → (d ≡ true → b ≡ true)
    → class_rank (pick p a b) ≤ class_rank (pick q c d)
pick_mono p a b q c d hp ha hb = ground (arith, rank_pick p a b, rank_pick q c d)

positive-le : (v w : ℤ) → w ≤ℤ v → positive w ≡ true → positive v ≡ true
unfolding positive
positive-le v w h p = ground arith

class_of_mono :
    (one : ℕ) (ab : ℕ × ℕ) (total c d v w : ℤ)
    → c ≤ℤ d
    → w ≤ℤ v
    → class_rank (class_of one ab total c v) ≤ class_rank (class_of one ab total d w)
unfolding class_of
class_of_mono one (a, b) total c d v w h k =
    pick_mono (positive v) (within one c total a) (within one c total b) (positive w)
      (within one d total a) (within one d total b) (positive-le v w k)
      (within-le one c d total a h) (within-le one c d total b h)

-- The running sum after a value
abbrev next_sum : ℤ → ℤ → ℤ → ℤ
next_sum total c v = if (if positive total then positive v else false) then c +ℤ v else c

next_sum-le : (total c v : ℤ) → c ≤ℤ next_sum total c v
unfolding positive
next_sum-le total c v = ground (arith, +ℤ_parts c v)

-- What comes after a value at some running sum has no higher value and no better class.
classify-NotAbove :
    (one : ℕ) (ab : ℕ × ℕ) (total c d v : ℤ) (items : List (String × Money))
    → c ≤ℤ d
    → All (λ p. leb_ℤ (p.1) v ≡ true) items
    → All (NotAbove v (class_of one ab total c v)) (classify one ab total d items)
unfolding classify
classify-NotAbove one ab total c d v [] h s = tt
classify-NotAbove one ab total c d v ((name, w) ∷ items) h s = (
  (leb→le _ _ s.0, class_of_mono one ab total c (next_sum total d w) v w further (leb→le _ _ s.0)),
  classify-NotAbove one ab total c (next_sum total d w) v items further s.1,
)
  where
    further : c ≤ℤ next_sum total d w
    further = omega (arith, h, next_sum-le total d w)

classify-IsRanked :
    (one : ℕ) (ab : ℕ × ℕ) (total c : ℤ) (items : List (String × Money))
    → IsSorted (λ x y. leb_ℤ (y.1) (x.1)) items
    → IsRanked (classify one ab total c items)
unfolding classify
classify-IsRanked one ab total c [] s = tt
classify-IsRanked one ab total c ((name, v) ∷ items) s = (
  classify-NotAbove one ab total (next_sum total c v) (next_sum total c v) v items (omega arith)
      s.0,
  classify-IsRanked one ab total (next_sum total c v) items s.1,
)

descending-IsSorted :
    (pairs : List (String × Money))
    → IsSorted (λ x y. leb_ℤ (y.1) (x.1)) (descending (λ p. p.1) pairs)
unfolding descending
descending-IsSorted =
    sort-IsSorted (λ x y. leb_ℤ (y.1) (x.1)) (λ x y h. ground arith) (λ x y z h k. ground arith)

-- The pair that an item was made from
abbrev pub pair_of : AbcItem → String × Money
pair_of it = (it.name, it.value)

pairs-classify :
    (one : ℕ) (ab : ℕ × ℕ) (total c : ℤ) (items : List (String × Money))
    → map pair_of (classify one ab total c items) ≡ items
unfolding classify
pairs-classify one ab total c [] = refl
pairs-classify one ab total c ((name, v) ∷ items) =
    ap (◌∷◌ (name, v)) (pairs-classify one ab total (next_sum total c v) items)

descending-perm : (pairs : List (String × Money)) → Perm (descending (λ p. p.1) pairs) pairs
unfolding descending
descending-perm = sort-perm (λ x y. leb_ℤ (y.1) (x.1))

-- The items of an ABC analysis are the given pairs, each once, and none of them comes before one
-- with a higher value or a better class.
pub abc-IsRanked :
    (one : ℕ) (pairs : List (String × Money)) (a_cut b_cut : ℤ)
    → Perm (map pair_of (abc one pairs a_cut b_cut)) pairs × IsRanked (abc one pairs a_cut b_cut)
unfolding abc
abc-IsRanked one pairs a_cut b_cut = (
  rw
      (pairs-classify one (cuts one a_cut b_cut)
        (sum_ℤ (λ p. p.1) (filter (λ p. positive (p.1)) (descending (λ p. p.1) pairs))) (pos 0)
        (descending (λ p. p.1) pairs))
      (descending-perm pairs),
  classify-IsRanked one (cuts one a_cut b_cut) _ (pos 0) (descending (λ p. p.1) pairs)
      (descending-IsSorted pairs),
)
