-- ===== src/Agent/Guardrail/Tests.antt =====
-- chic/agent/guardrail.py: runs at concrete inputs.
use chic_mcp.Prelude.{
  ℕ, ◌-◌, ◌*◌, ◌^◌, ◌≡◌, refl, Bool, not, ◌&&◌, ◌||◌, Option, none, some, [], ◌∷◌, leb, inl,
  if◌then◌else◌,
}
use chic_mcp.Prelude.Int.{pos}
use chic_mcp.Prelude.Json.{Json, num, obj, end, field, lookup}
use chic_mcp.Prelude.Text.{Text, codes, is_digit}
use chic_mcp.Prelude.Decimal.{show}
use chic_mcp.Agent.Guardrail.Quoted.{IsAscii}
use chic_mcp.Agent.Guardrail.Check.{matches, collect_known_numbers, check_answer}
use chic_mcp.Agent.Guardrail.Check.Reported.{
  whole, is_figure, check_answer-show, check_answer-Returned, Occurs,
}

-- The digits and letters of ASCII
abbrev digit_of : ℕ → Option ℕ
digit_of c = if is_digit c then some (c - 48) else none

abbrev is_word : ℕ → Bool
is_word c = is_digit c || leb 65 c && leb c 90 || leb 97 c && leb c 122

digit_of-IsAscii : IsAscii digit_of
digit_of-IsAscii c h = rw h refl

-- A tool returned a total of 847320.
abbrev total : Json
total = obj (field "total" (num (pos 847320)) end)

abbrev loads : Text → Option Json
loads raw = some total

check_answer-show_example :
    (check_answer digit_of is_word (codes (show 843720)) (whole 847320 ∷ [])).unexplained ≡ (
      if is_figure 843720 && not (matches (whole 843720) (whole 847320 ∷ []))
      then codes (show 843720) ∷ []
      else [])
check_answer-show_example =
    check_answer-show digit_of is_word digit_of-IsAscii 843720 (whole 847320 ∷ [])

total-Occurs : Occurs (pos (847320 * 10 ^ 0)) total
unfolding Occurs lookup
total-Occurs = inl (refl, refl)

check_answer-Returned_example :
    (check_answer digit_of is_word
      (codes (show 847320))
      (collect_known_numbers digit_of is_word 0 loads (codes "{}" ∷ []) (codes ""))).unexplained
    ≡ []
check_answer-Returned_example =
    check_answer-Returned digit_of is_word digit_of-IsAscii 847320 0 loads (codes "{}" ∷ [])
      (codes "") (inl (total, refl, total-Occurs))
