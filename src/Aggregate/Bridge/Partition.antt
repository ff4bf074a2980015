-- ===== src/Aggregate/Bridge/Partition.antt =====
-- The lines of two dictionaries are those of common keys and the rest.
use chic_mcp.Prelude.{
  ◌+◌, ◌≡◌, refl, sym, ap, subst, ◌∙◌, Option, none, some, List, [], ◌∷◌, String, length, ◌==◌,
  string_eq, Bool-cases, Option-cases, inl, inr, arith,
}
use chic_mcp.Prelude.Int.{ℤ, pos, ◌+ℤ◌, sum_ℤ, sum_ℤ-cons, sum_ℤ-zero, int_laws}
use chic_mcp.Prelude.Dict.{Dict, get, Distinct}
use chic_mcp.Aggregate.Models.Lines.{ProfitProductLine}
use chic_mcp.Aggregate.Bridge.{common, only}

abbrev pub Lines : Type 0
Lines = Dict String ProfitProductLine

swap : (x y z : ℤ) → x +ℤ (y +ℤ z) ≡ y +ℤ (x +ℤ z)
swap x y z = omega int_laws

pull : (x y z : ℤ) → x +ℤ y +ℤ z ≡ x +ℤ (y +ℤ z)
pull x y z = omega int_laws

zero_left : (x : ℤ) → pos 0 +ℤ x ≡ x
zero_left x = omega int_laws

-- An amount that counts if there is a line
abbrev if_some : Option ProfitProductLine → ℤ → ℤ
if_some none v = pos 0
if_some (some ln) v = v

common_hit :
    (k : String) (la lb : ProfitProductLine) (a b : Lines)
    → get b k ≡ some lb
    → common ((k, la) ∷ a) b ≡ (la, lb) ∷ common a b
unfolding common
common_hit k la lb a b h = rw (h, common) refl

common_miss :
    (k : String) (la : ProfitProductLine) (a b : Lines)
    → get b k ≡ none
    → common ((k, la) ∷ a) b ≡ common a b
unfolding common
common_miss k la a b h = rw (h, common) refl

get_first : (k j : String) (l : ProfitProductLine) (m : Lines) → k ≡ j → get ((k, l) ∷ m) j ≡ some l
unfolding get
get_first k j l m e = ground (arith, string_eq.same_iff k j)

get_later :
    (k j : String) (l : ProfitProductLine) (m : Lines) → ¬ (k ≡ j) → get ((k, l) ∷ m) j ≡ get m j
unfolding get
get_later k j l m e = ground (arith, string_eq.same_iff k j)

-- A quantity of the lines, over all keys, the common ones and the rest
module _ (g : ProfitProductLine → ℤ) where
  abbrev pub all : Lines → ℤ
  all m = sum_ℤ (λ e. g (e.1)) m

  abbrev pub firsts : List (ProfitProductLine × ProfitProductLine) → ℤ
  firsts ps = sum_ℤ (λ p. g (p.0)) ps

  abbrev pub seconds : List (ProfitProductLine × ProfitProductLine) → ℤ
  seconds ps = sum_ℤ (λ p. g (p.1)) ps

  pub first-common-only : (a b : Lines) → firsts (common a b) +ℤ sum_ℤ g (only a b) ≡ all a
  unfolding common only
  first-common-only [] b =
      rw
        (
          sum_ℤ-zero {A = ProfitProductLine × ProfitProductLine} (λ p. g (p.0)),
          sum_ℤ-zero g,
          sum_ℤ-zero {A = String × ProfitProductLine} (λ e. g (e.1)),
        )
        (zero_left (pos 0))
  first-common-only ((k, la) ∷ a) b = elim (Option-cases (get b k)) [
    | inl gone ↦
        rw (gone, common, only, sum_ℤ-cons g la (only a b), sum_ℤ-cons (λ e. g (e.1)) (k, la) a)
          (swap (firsts (common a b)) (g la) (sum_ℤ g (only a b))
            ∙ ap (◌+ℤ◌ (g la)) (first-common-only a b))
    | inr (lb, kept) ↦
        rw
          (
            kept,
            common,
            only,
            sum_ℤ-cons (λ p. g (p.0)) (la, lb) (common a b),
            sum_ℤ-cons (λ e. g (e.1)) (k, la) a,
          )
          (pull (g la) (firsts (common a b)) (sum_ℤ g (only a b))
            ∙ ap (◌+ℤ◌ (g la)) (first-common-only a b))
  ]

  common-nil : (a : Lines) → common a [] ≡ []
  unfolding common get
  common-nil [] = refl
  common-nil ((k, la) ∷ a) = common-nil a

  none_in_empty :
      (k : String) (lb : ProfitProductLine) (b : Lines)
      → seconds (common [] ((k, lb) ∷ b)) ≡ if_some (get [] k) (g lb) +ℤ seconds (common [] b)
  unfolding common get
  none_in_empty k lb b = sym (zero_left _)

  -- A key in front of the second dictionary adds its line if the first one has the key.
  seconds-cons :
      (k : String) (lb : ProfitProductLine) (a b : Lines)
      → Distinct a
      → get b k ≡ none
      → seconds (common a ((k, lb) ∷ b)) ≡ if_some (get a k) (g lb) +ℤ seconds (common a b)
  seconds-cons k lb [] b d new = none_in_empty k lb b
  seconds-cons k lb ((j, la) ∷ a) b d new = elim (Bool-cases (k == j)) [
    | inl same ↦
        let e = (string_eq.same_iff k j).0 same in
        rw
          (
            common_hit j la lb a ((k, lb) ∷ b) (get_first k j lb b e),
            get_first j k la a (sym e),
            common_miss j la a b (subst (λ i. get b i ≡ none) e new),
            sum_ℤ-cons (λ p. g (p.1)) (la, lb) (common a ((k, lb) ∷ b)),
            seconds-cons k lb a b d.1 new,
            subst (λ i. get a i ≡ none) (sym e) d.0,
          )
          (ap (◌+ℤ◌ (g lb)) (zero_left (seconds (common a b))))
    | inr differ ↦
        let other : ¬ (k ≡ j) = λ e. cc ((string_eq.same_iff k j).1 e, differ) in
        let gets = get_later k j lb b other in
        rw (get_later j k la a (λ e. other (sym e))) (elim (Option-cases (get b j)) [
          | inl gone ↦
              rw (common_miss j la a ((k, lb) ∷ b) (gets ∙ gone), common_miss j la a b gone)
                (seconds-cons k lb a b d.1 new)
          | inr (l, kept) ↦
              rw
                (
                  common_hit j la l a ((k, lb) ∷ b) (gets ∙ kept),
                  common_hit j la l a b kept,
                  sum_ℤ-cons (λ p. g (p.1)) (la, l) (common a ((k, lb) ∷ b)),
                  sum_ℤ-cons (λ p. g (p.1)) (la, l) (common a b),
                  seconds-cons k lb a b d.1 new,
                )
                (swap (g l) (if_some (get a k) (g lb)) (seconds (common a b)))
        ])
  ]

  pub second-common-only :
      (a b : Lines) → Distinct a → Distinct b → seconds (common a b) +ℤ sum_ℤ g (only b a) ≡ all b
  unfolding only
  second-common-only a [] da db =
      rw
        (
          common-nil a,
          sum_ℤ-zero {A = ProfitProductLine × ProfitProductLine} (λ p. g (p.1)),
          sum_ℤ-zero g,
          sum_ℤ-zero {A = String × ProfitProductLine} (λ e. g (e.1)),
        )
        (zero_left (pos 0))
  second-common-only a ((k, lb) ∷ b) da db =
      let step = seconds-cons k lb a b da db.0 in
      let rest = second-common-only a b da db.1 in
      elim (Option-cases (get a k)) [
        | inl gone ↦
            rw
              (
                step,
                gone,
                only,
                sum_ℤ-cons g lb (only b a),
                sum_ℤ-cons (λ e. g (e.1)) (k, lb) b,
                zero_left (seconds (common a b)),
              )
              (swap (seconds (common a b)) (g lb) (sum_ℤ g (only b a)) ∙ ap (◌+ℤ◌ (g lb)) rest)
        | inr (la, kept) ↦
            rw (step, kept, only, sum_ℤ-cons (λ e. g (e.1)) (k, lb) b)
              (pull (g lb) (seconds (common a b)) (sum_ℤ g (only b a)) ∙ ap (◌+ℤ◌ (g lb)) rest)
      ]

-- The number of the lines of a dictionary
pub count-common-only : (a b : Lines) → length (common a b) + length (only a b) ≡ length a
unfolding common only
count-common-only [] b = omega arith
count-common-only ((k, la) ∷ a) b = ground (arith, count-common-only a b)
