-- ===== src/Agent/Guardrail/Check.antt =====
-- Figures against known numbers: `_is_significant`, `_matches`, `check_answer` and the collection of
-- what is known in chic/agent/guardrail.py. Decimals are exact. `loads` is `json.loads`, whose
-- numbers come as steps of 1/10^`digits`; a set of numbers, which is only searched, is a list.
pub mod Reported
use chic_mcp.Prelude.{
  ℕ, ◌+◌, ◌-◌, ◌*◌, ◌^◌, ◌%◌, max, Bool, true, false, not, ◌&&◌, ◌||◌, Option, none, some, List, [],
  ◌∷◌, ◌++◌, map, filter, length, String, leb, ◌==◌, nat_eq, if◌then◌else◌,
}
use chic_mcp.Prelude.Int.{ℤ, pos, pos_part, neg_part, abs, ◌-ℤ◌, ◌*ℤ◌, leb_ℤ}
use chic_mcp.Prelude.Json.{
  Json, Items, Fields, null, bool, num, str, arr, obj, nil, cons, end, field, lookup,
}
use chic_mcp.Prelude.Text.{Text, codes}
use chic_mcp.Agent.Guardrail.Scan.{Decimal, ParsedNumber, extract_numbers}

-- `GroundingReport`
pub record GroundingReport : Type 0 where
  pub total : ℕ
  pub checked : ℕ
  pub grounded : ℕ
  pub unexplained : List Text

-- `_is_significant`, with a `min_magnitude` of 100
unfoldable pub is_significant : ParsedNumber → Bool
is_significant pn =
    let unit = 10 ^ pn.value.places in
    let year =
      abs pn.value.mantissa % unit == 0
      && leb_ℤ (pos (1900 * unit)) pn.value.mantissa
      && leb_ℤ pn.value.mantissa (pos (2099 * unit)) in
    if pn.is_percent || pn.fractional || pn.grouped
    then true
    else if year
    then false
    else leb (100 * unit) (abs pn.value.mantissa)

-- The test of `_matches`, multiplied by what makes all sides whole: the tolerance is one, or a
-- thousandth of either number.
unfoldable pub is_close : Decimal → Decimal → Bool
is_close n k =
    let n' = n.mantissa *ℤ pos (10 ^ k.places) in
    let k' = k.mantissa *ℤ pos (10 ^ n.places) in
    let one = 10 ^ n.places * 10 ^ k.places in
    leb (1000 * abs (n' -ℤ k')) (max (max (1000 * one) (abs k')) (abs n'))

-- `_matches`
unfoldable pub matches : Decimal → List Decimal → Bool
unfolding is_close
matches n [] = false
matches n (k ∷ known) = if is_close n k then true else matches n known

-- `_add_json_numbers`; of two fields with one name the last one is in the dictionary.
mutual
  pub add_json_numbers : ℕ → Json → List Decimal → List Decimal
  add_json_numbers digits null acc = acc
  add_json_numbers digits (bool b) acc = acc
  add_json_numbers digits (num n) acc = record { mantissa = n; places = digits } ∷ acc
  add_json_numbers digits (str s) acc = acc
  add_json_numbers digits (arr vs) acc = add_items digits vs acc
  add_json_numbers digits (obj fs) acc = add_fields digits fs acc

  pub add_items : ℕ → Items → List Decimal → List Decimal
  add_items digits nil acc = acc
  add_items digits (cons v vs) acc = add_items digits vs (add_json_numbers digits v acc)

  pub add_fields : ℕ → Fields → List Decimal → List Decimal
  add_fields digits end acc = acc
  add_fields digits (field k v fs) acc =
      add_fields digits fs (elim (lookup fs k) as (λ x. List Decimal) [
        | none ↦ add_json_numbers digits v acc
        | some w ↦ acc
      ])

values : List ParsedNumber → List Decimal
values ps = map (λ p. p.value) ps

module _ (digit_of : ℕ → Option ℕ) (is_word : ℕ → Bool) where
  -- The numbers of an output, and those of a text
  add_output : ℕ → Option Json → Text → List Decimal → List Decimal
  unfolding values
  add_output digits none raw acc = values (extract_numbers digit_of is_word raw) ++ acc
  add_output digits (some parsed) raw acc = add_json_numbers digits parsed acc

  add_outputs : ℕ → (Text → Option Json) → List Text → List Decimal → List Decimal
  unfolding add_output
  add_outputs digits loads [] acc = acc
  add_outputs digits loads (raw ∷ outputs) acc =
      add_outputs digits loads outputs (add_output digits (loads raw) raw acc)

  -- `collect_known_numbers`
  unfoldable pub collect_known_numbers : ℕ → (Text → Option Json) → List Text → Text → List Decimal
  unfolding add_outputs values
  collect_known_numbers digits loads outputs extra =
      values (extract_numbers digit_of is_word extra) ++ add_outputs digits loads outputs []

  -- `check_answer`
  unfoldable pub check_answer : Text → List Decimal → GroundingReport
  check_answer answer known =
      let numbers = extract_numbers digit_of is_word answer in
      let significant = filter is_significant numbers in
      let unexplained = filter (λ p. not (matches p.value known)) significant in
      record {
        total = length numbers;
        checked = length significant;
        grounded = length significant - length unexplained;
        unexplained = map (λ p. p.text) unexplained;
      }
