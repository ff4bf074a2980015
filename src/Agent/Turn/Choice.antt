-- ===== src/Agent/Turn/Choice.antt =====
-- The options of a clarifying question.
use chic_mcp.Prelude.{
  ◌≤◌, ◌≡◌, refl, Bool, false, List, [], ◌∷◌, All, length, String, ltb, ◌==◌, string_eq, Bool-cases,
  inl, inr, arith, ◌⊎◌,
}
use chic_mcp.Prelude.Words.{strip}
use chic_mcp.Agent.Turn.{stripped, clarify_result}

All-stripped : (os : List String) → All (λ o. o == "" ≡ false) (stripped os)
unfolding stripped
All-stripped [] = tt
All-stripped (o ∷ os) = elim (Bool-cases (strip o == "")) [
  | inl blank ↦ rw (blank, stripped) (All-stripped os)
  | inr shown ↦ rw (shown, stripped) (shown, All-stripped os)
]

-- A clarifying question offers no option at all or at least two, and none of them is empty; a free
-- answer is only offered beside options.
pub clarify_result-Choice :
    (question : String) (options : List String) (allow_custom : Bool)
    → All (λ o. o == "" ≡ false) ((clarify_result question options allow_custom).options)
      × ((((clarify_result question options allow_custom).options ≡ [])
            × ((clarify_result question options allow_custom).allow_custom ≡ false))
          ⊎ (2 ≤ length ((clarify_result question options allow_custom).options)))
unfolding clarify_result
clarify_result-Choice question options allow_custom =
    elim (Bool-cases (ltb (length (stripped options)) 2)) [
      | inl few ↦ rw (few, clarify_result) (tt, inl (refl, refl))
      | inr many ↦ rw (many, clarify_result) (All-stripped options, inr (ground arith))
    ]
