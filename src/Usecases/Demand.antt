-- ===== src/Usecases/Demand.antt =====
-- Where the demand of a product comes from.
use chic_mcp.Prelude.{
  ℕ, ◌≡◌, refl, sym, ap, subst, ◌∙◌, Option, none, some, List, [], ◌∷◌, String, leb, ◌==◌,
  string_eq, if◌then◌else◌, Bool-cases, Option-cases, inl, inr,
}
use chic_mcp.Prelude.Int.{ℤ, pos, pos_part, leb_ℤ}
use chic_mcp.Prelude.Dict.{Dict, get, put, get-put}
use chic_mcp.Aggregate.Money.{Steps}
use chic_mcp.Aggregate.Models.Lines.{ProfitProductLine}
use chic_mcp.Aggregate.Purchase.{DemandStat}
use chic_mcp.Usecases.{
  DemandStats, default_min_days, history_stats, is_known, estimate, add_estimates, demand_of,
}

-- The last statistics of a product that cover enough days, or what was there
abbrev pub last_history : String → List DemandStats → Option DemandStat → Option DemandStat
last_history id [] old = old
last_history id (s ∷ rest) old = last_history id rest (
    if leb default_min_days s.days
    then (if s.product_href == id
        then some
            (record { daily_mean = s.mean_demand; daily_std = s.std_demand; source = "history" })
        else old)
    else old)

history_stats-last :
    (id : String) (stats : List DemandStats) (out : Dict String DemandStat)
    → get (history_stats out stats) id ≡ last_history id stats (get out id)
unfolding history_stats
history_stats-last id [] out = refl
history_stats-last id (s ∷ rest) out = elim (Bool-cases (leb default_min_days s.days)) [
  | inl enough ↦
      rw enough
        (history_stats-last id rest _ ∙ ap (last_history id rest) (get-put out s.product_href id _))
  | inr few ↦ rw few (history_stats-last id rest out)
]

module _ (one : ℕ) where
  -- The estimate of the first line of a product that was sold
  abbrev pub first_estimate : ℤ → String → List ProfitProductLine → Option DemandStat
  first_estimate cv id [] = none
  first_estimate cv id (line ∷ lines) =
      if leb_ℤ line.sell_quantity (pos 0)
      then first_estimate cv id lines
      else if line.id == id
      then some (estimate one cv line)
      else first_estimate cv id lines

  -- A first choice, or else a second one
  abbrev pub or_else : Option DemandStat → Option DemandStat → Option DemandStat
  or_else none o = o
  or_else (some s) o = some s

  or_else-none : (o : Option DemandStat) → or_else o none ≡ o
  or_else-none none = refl
  or_else-none (some s) = refl

  -- A line of a known product changes nothing.
  known_first :
      (cv : ℤ) (id : String) (line : ProfitProductLine) (lines : List ProfitProductLine)
      (o : Option DemandStat) (w : DemandStat)
      → (line.id ≡ id → o ≡ some w)
      → or_else o (first_estimate cv id lines) ≡ or_else o (first_estimate cv id (line ∷ lines))
  known_first cv id line lines o w h = elim (Bool-cases (line.id == id)) [
    | inl same ↦ rw (h ((string_eq.same_iff line.id id).0 same)) refl
    | inr differ ↦ elim (Bool-cases (leb_ℤ line.sell_quantity (pos 0))) [
      | inl unsold ↦ rw unsold refl
      | inr sold ↦ rw (sold, differ) refl
    ]
  ]

  add_estimates-first :
      (cv : ℤ) (id : String) (lines : List ProfitProductLine) (stats : Dict String DemandStat)
      → get (add_estimates one cv stats lines) id
        ≡ or_else (get stats id) (first_estimate cv id lines)
  unfolding add_estimates
  add_estimates-first cv id [] stats = sym (or_else-none (get stats id))
  add_estimates-first cv id (line ∷ lines) stats = elim (Option-cases (get stats line.id)) [
    | inr (w, known) ↦
        rw (known, is_known)
          (add_estimates-first cv id lines stats
            ∙ known_first cv id line lines (get stats id) w
                (λ e. subst (λ i. get stats i ≡ some w) e known))
    | inl new ↦ elim (Bool-cases (leb_ℤ line.sell_quantity (pos 0))) [
      | inl unsold ↦ rw (new, is_known, unsold) (add_estimates-first cv id lines stats)
      | inr sold ↦
          rw (new, is_known, sold)
            (add_estimates-first cv id lines (put stats line.id (estimate one cv line))
              ∙ rw (get-put stats line.id id (estimate one cv line))
                  (elim (Bool-cases (line.id == id)) [
                    | inl same ↦
                        rw
                          (
                            same,
                            subst (λ i. get stats i ≡ none) ((string_eq.same_iff line.id id).0 same)
                                new,
                          )
                          refl
                    | inr differ ↦ rw differ refl
                  ]))
    ]
  ]

  -- The demand of a product is that of the history, if it has statistics over at least three days,
  -- or else the estimate of the first line of the fallback window in which the product was sold.
  pub demand_of-Source :
      (fallback_cv : Steps) (stats : List DemandStats) (lines : List ProfitProductLine)
      (id : String)
      → get (demand_of one fallback_cv stats lines) id
        ≡ or_else
            (last_history id stats none)
            (first_estimate (pos (pos_part fallback_cv)) id lines)
  unfolding demand_of get
  demand_of-Source fallback_cv stats lines id =
      add_estimates-first (pos (pos_part fallback_cv)) id lines (history_stats [] stats)
      ∙ ap (λ o. or_else o (first_estimate (pos (pos_part fallback_cv)) id lines))
          (history_stats-last id stats [])
