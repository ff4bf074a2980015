-- ===== src/Aggregate/Bridge/Reconciled.antt =====
-- The effects of a profit bridge explain the whole change.
use chic_mcp.Prelude.{
  ℕ, ◌+◌, ◌<◌, ◌≡◌, refl, ap, ◌∙◌, false, List, [], ◌∷◌, length, leb, string_eq, Bool-cases,
  Option-cases, inl, inr, arith,
}
use chic_mcp.Prelude.Int.{
  ℤ, pos, abs, neg, ◌+ℤ◌, ◌-ℤ◌, leb_ℤ, sum_ℤ, sum_ℤ-cons, sum_ℤ-zero, int_laws,
}
use chic_mcp.Prelude.Dict.{get, Distinct, put-Distinct}
use chic_mcp.Aggregate.Models.Lines.{ProfitProductLine}
use chic_mcp.Aggregate.Bridge.Partition.{
  Lines, firsts, seconds, first-common-only, second-common-only, count-common-only,
}
use chic_mcp.Aggregate.Bridge.{
  combine, add_line, add_lines, by_id, common, gross, effects, sums, volume_of, residual,
  profit_bridge,
}

add_line-Distinct :
    (out : Lines) (ln : ProfitProductLine) → Distinct out → Distinct (add_line out ln)
unfolding add_line
add_line-Distinct out ln d = elim (Option-cases (get out ln.id)) [
  | inl new ↦ rw (new, add_line) (put-Distinct out ln.id ln d)
  | inr (prev, old) ↦ rw (old, add_line) (put-Distinct out ln.id (combine prev ln) d)
]

add_lines-Distinct :
    (out : Lines) (lines : List ProfitProductLine) → Distinct out → Distinct (add_lines out lines)
unfolding add_lines
add_lines-Distinct out [] d = d
add_lines-Distinct out (ln ∷ lines) d = elim (Bool-cases (leb_ℤ ln.sell_quantity (pos 0))) [
  | inl unsold ↦ rw (unsold, add_lines) (add_lines-Distinct out lines d)
  | inr sold ↦
      rw (sold, add_lines) (add_lines-Distinct (add_line out ln) lines (add_line-Distinct out ln d))
]

by_id-Distinct : (lines : List ProfitProductLine) → Distinct (by_id lines)
unfolding by_id
by_id-Distinct lines = add_lines-Distinct [] lines tt

exact_effects : (p c a b : ℤ) → p +ℤ c +ℤ (b -ℤ a -ℤ p -ℤ c) +ℤ a ≡ b
exact_effects p c a b = omega int_laws

spread :
    (p q x a ps qs xs as' : ℤ)
    → (p +ℤ ps) +ℤ (q +ℤ qs) +ℤ (x +ℤ xs) +ℤ (a +ℤ as')
      ≡ (p +ℤ q +ℤ x +ℤ a) +ℤ (ps +ℤ qs +ℤ xs +ℤ as')
spread p q x a ps qs xs as' = omega int_laws

balance :
    (p c v q f s n d a b : ℤ)
    → p +ℤ c +ℤ q +ℤ f ≡ s
    → f +ℤ d ≡ a
    → s +ℤ n ≡ b
    → p +ℤ c +ℤ v +ℤ (q -ℤ v) +ℤ n +ℤ neg d -ℤ (b -ℤ a) ≡ pos 0
balance p c v q f s n d a b e k h = rw (← h, ← k, ← e) (omega int_laws)

module _ (cent : ℕ) where
  effect-sum :
      (p : ProfitProductLine × ProfitProductLine)
      → (effects cent p).price
          +ℤ (effects cent p).cost
          +ℤ (effects cent p).quantity
          +ℤ gross cent (p.0)
        ≡ gross cent (p.1)
  unfolding effects
  effect-sum (la, lb) = exact_effects _ _ (gross cent la) (gross cent lb)

  -- The effects of the common products add up to the change of their profit.
  effects-sum :
      (ps : List (ProfitProductLine × ProfitProductLine))
      → sum_ℤ (λ p. (effects cent p).price) ps
          +ℤ sum_ℤ (λ p. (effects cent p).cost) ps
          +ℤ sum_ℤ (λ p. (effects cent p).quantity) ps
          +ℤ firsts (gross cent) ps
        ≡ seconds (gross cent) ps
  effects-sum [] =
      rw
        (
          sum_ℤ-zero {A = ProfitProductLine × ProfitProductLine} (λ p. (effects cent p).price),
          sum_ℤ-zero {A = ProfitProductLine × ProfitProductLine} (λ p. (effects cent p).cost),
          sum_ℤ-zero {A = ProfitProductLine × ProfitProductLine} (λ p. (effects cent p).quantity),
          sum_ℤ-zero {A = ProfitProductLine × ProfitProductLine} (λ p. gross cent (p.0)),
          sum_ℤ-zero {A = ProfitProductLine × ProfitProductLine} (λ p. gross cent (p.1)),
        )
        (omega int_laws)
  effects-sum (p ∷ ps) =
      rw
        (
          sum_ℤ-cons (λ x. (effects cent x).price) p ps,
          sum_ℤ-cons (λ x. (effects cent x).cost) p ps,
          sum_ℤ-cons (λ x. (effects cent x).quantity) p ps,
          sum_ℤ-cons (λ x. gross cent (x.0)) p ps,
          sum_ℤ-cons (λ x. gross cent (x.1)) p ps,
          spread (effects cent p).price (effects cent p).cost (effects cent p).quantity
              (gross cent (p.0)) (sum_ℤ (λ x. (effects cent x).price) ps)
              (sum_ℤ (λ x. (effects cent x).cost) ps) (sum_ℤ (λ x. (effects cent x).quantity) ps)
              (firsts (gross cent) ps),
          effect-sum p,
          effects-sum ps,
        )
        refl

  residual-sums : (a b : Lines) → Distinct a → Distinct b → residual cent (sums cent a b) ≡ pos 0
  unfolding residual sums
  residual-sums a b da db =
      balance _ _ (volume_of cent (common a b)) _ (firsts (gross cent) (common a b)) _ _ _ _ _
        (effects-sum (common a b)) (first-common-only (gross cent) a b)
        (second-common-only (gross cent) a b da db)

settle : (d s : ℤ) → s +ℤ (d -ℤ s) ≡ d
settle d s = omega int_laws

-- With at least one step to a hundredth, a bridge logs no error: the six effects, before rounding,
-- add up to the change of the profit. After rounding they do so with the residual that is shown.
-- Every product of the first period is counted as common or as discontinued.
pub profit_bridge-Reconciled :
    (cent : ℕ) (a_lines b_lines : List ProfitProductLine) (top_n : ℤ)
    → 0 < cent
    → (residual cent (sums cent (by_id a_lines) (by_id b_lines)) ≡ pos 0)
      × ((profit_bridge cent a_lines b_lines top_n).1 ≡ false)
      × (let r = (profit_bridge cent a_lines b_lines top_n).0 in
          r.price_effect +ℤ r.cost_effect +ℤ r.volume_effect +ℤ r.mix_effect
            +ℤ r.new_products_effect +ℤ r.discontinued_effect +ℤ r.rounding
          ≡ r.delta)
      × ((profit_bridge cent a_lines b_lines top_n).0.common_count
            + (profit_bridge cent a_lines b_lines top_n).0.discontinued_count
          ≡ length (by_id a_lines))
unfolding profit_bridge
profit_bridge-Reconciled cent a_lines b_lines top_n h =
    let zero_residual =
      residual-sums cent (by_id a_lines) (by_id b_lines) (by_id-Distinct a_lines)
        (by_id-Distinct b_lines) in
    (
      zero_residual,
      ap (λ x. leb cent (abs x)) zero_residual ∙ ground arith,
      settle _ _,
      count-common-only (by_id a_lines) (by_id b_lines),
    )
