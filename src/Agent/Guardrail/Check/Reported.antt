-- ===== src/Agent/Guardrail/Check/Reported.antt =====
-- Which figures of an answer the grounding check reports.
use chic_mcp.Prelude.{
  ℕ, ◌*◌, ◌^◌, ◌≡◌, refl, sym, ap, ◌∙◌, Bool, true, false, not, ◌&&◌, Option, none, some, List, [],
  ◌∷◌, ◌++◌, map, filter, leb, nat_eq, if◌then◌else◌, Option-cases, inl, inr, arith, ◌⊎◌,
}
use chic_mcp.Prelude.Int.{ℤ, pos, abs, ◌-ℤ◌, ◌*ℤ◌, pos_mul}
use chic_mcp.Prelude.Json.{
  Json, Items, Fields, null, bool, num, str, arr, obj, nil, cons, end, field, lookup,
}
use chic_mcp.Prelude.Text.{Text, codes}
use chic_mcp.Prelude.Decimal.{show}
use chic_mcp.Agent.Guardrail.Scan.{Decimal, ParsedNumber, extract_numbers}
use chic_mcp.Agent.Guardrail.Quoted.{IsAscii, quoted, extract_numbers-show}
use chic_mcp.Agent.Guardrail.Check.{
  is_significant, is_close, matches, add_json_numbers, add_items, add_fields, values, add_output,
  add_outputs, collect_known_numbers, check_answer,
}

abbrev pub whole : ℕ → Decimal
whole n = record { mantissa = pos n; places = 0 }

-- At least a hundred, and no year
abbrev pub is_figure : ℕ → Bool
is_figure n = not (leb 1900 n && leb n 2099) && leb 100 n

is_significant-quoted : (n : ℕ) (s : Text) → is_significant (quoted n s) ≡ is_figure n
unfolding is_significant
is_significant-quoted n s = ground arith

reported :
    (g m : Bool) (p : ParsedNumber) (known : List Decimal)
    → is_significant p ≡ g
    → matches p.value known ≡ m
    → map
        (λ (p : ParsedNumber). p.text)
        (filter (λ p. not (matches p.value known)) (filter is_significant (p ∷ [])))
      ≡ (if g && not m then p.text ∷ [] else [])
reported true true p known g m = rw (g, m) refl
reported true false p known g m = rw (g, m) refl
reported false m p known g e = rw g refl

-- A number occurs in a JSON value: in a field, it is in the last one with its name.
unfoldable mutual
  pub Occurs : ℤ → Json → Type 0
  Occurs n null = ⊥
  Occurs n (bool b) = ⊥
  Occurs n (num m) = n ≡ m
  Occurs n (str s) = ⊥
  Occurs n (arr vs) = OccursItem n vs
  Occurs n (obj fs) = OccursField n fs

  pub OccursItem : ℤ → Items → Type 0
  OccursItem n nil = ⊥
  OccursItem n (cons v vs) = Occurs n v ⊎ OccursItem n vs

  pub OccursField : ℤ → Fields → Type 0
  OccursField n end = ⊥
  OccursField n (field k v fs) = ((lookup fs k ≡ none) × Occurs n v) ⊎ OccursField n fs

matches-cons :
    (d k : Decimal) (known : List Decimal) → matches d known ≡ true → matches d (k ∷ known) ≡ true
unfolding matches
matches-cons d k known h = ground arith

matches-first :
    (d k : Decimal) (known : List Decimal) → is_close d k ≡ true → matches d (k ∷ known) ≡ true
unfolding matches
matches-first d k known h = rw h refl

matches-append :
    (d : Decimal) (more known : List Decimal)
    → matches d known ≡ true
    → matches d (more ++ known) ≡ true
matches-append d [] known h = h
matches-append d (k ∷ more) known h =
    matches-cons d k (more ++ known) (matches-append d more known h)

-- What is known stays known.
mutual
  unfolding add_json_numbers add_items add_fields

  kept-json :
      (d : Decimal) (digits : ℕ) (v : Json) (acc : List Decimal)
      → matches d acc ≡ true
      → matches d (add_json_numbers digits v acc) ≡ true
  kept-json d digits null acc h = h
  kept-json d digits (bool b) acc h = h
  kept-json d digits (num n) acc h = matches-cons d _ acc h
  kept-json d digits (str s) acc h = h
  kept-json d digits (arr vs) acc h = kept-items d digits vs acc h
  kept-json d digits (obj fs) acc h = kept-fields d digits fs acc h

  kept-items :
      (d : Decimal) (digits : ℕ) (vs : Items) (acc : List Decimal)
      → matches d acc ≡ true
      → matches d (add_items digits vs acc) ≡ true
  kept-items d digits nil acc h = h
  kept-items d digits (cons v vs) acc h =
      kept-items d digits vs (add_json_numbers digits v acc) (kept-json d digits v acc h)

  kept-fields :
      (d : Decimal) (digits : ℕ) (fs : Fields) (acc : List Decimal)
      → matches d acc ≡ true
      → matches d (add_fields digits fs acc) ≡ true
  kept-fields d digits end acc h = h
  kept-fields d digits (field k v fs) acc h = elim (Option-cases (lookup fs k)) [
    | inl last ↦
        rw last
          (kept-fields d digits fs (add_json_numbers digits v acc) (kept-json d digits v acc h))
    | inr (w, later) ↦ rw later (kept-fields d digits fs acc h)
  ]

no_distance : (x y : ℤ) (m : ℕ) → x ≡ y → leb (1000 * abs (x -ℤ y)) m ≡ true
unfolding ◌-ℤ◌
no_distance x y m h = rw h (ground arith)

-- A number that occurs in a value is known.
module _ (n : ℕ) (digits : ℕ) where
  abbrev steps : ℤ
  steps = pos (n * 10 ^ digits)

  close-whole : is_close (whole n) (record { mantissa = steps; places = digits }) ≡ true
  unfolding is_close
  close-whole =
      no_distance (pos n *ℤ pos (10 ^ digits)) (steps *ℤ pos 1) _
        (pos_mul n (10 ^ digits) ∙ sym (pos_mul (n * 10 ^ digits) 1 ∙ ap pos (omega arith)))

  mutual
    unfolding add_json_numbers add_items add_fields Occurs

    found-json :
        (v : Json) (acc : List Decimal)
        → Occurs steps v
        → matches (whole n) (add_json_numbers digits v acc) ≡ true
    found-json null acc o = absurd o
    found-json (bool b) acc o = absurd o
    found-json (num m) acc o = matches-first (whole n) _ acc (
        ap (λ x. is_close (whole n) (record { mantissa = x; places = digits })) (sym o)
        ∙ close-whole)
    found-json (str s) acc o = absurd o
    found-json (arr vs) acc o = found-items vs acc o
    found-json (obj fs) acc o = found-fields fs acc o

    found-items :
        (vs : Items) (acc : List Decimal)
        → OccursItem steps vs
        → matches (whole n) (add_items digits vs acc) ≡ true
    found-items nil acc o = absurd o
    found-items (cons v vs) acc (inl o) =
        kept-items (whole n) digits vs (add_json_numbers digits v acc) (found-json v acc o)
    found-items (cons v vs) acc (inr o) = found-items vs (add_json_numbers digits v acc) o

    found-fields :
        (fs : Fields) (acc : List Decimal)
        → OccursField steps fs
        → matches (whole n) (add_fields digits fs acc) ≡ true
    found-fields end acc o = absurd o
    found-fields (field k v fs) acc (inl (last, o)) =
        kept-fields (whole n) digits fs _ (rw last (found-json v acc o))
    found-fields (field k v fs) acc (inr o) = found-fields fs _ o

module _ (digit_of : ℕ → Option ℕ) (is_word : ℕ → Bool) where
  kept-outputs :
      (d : Decimal) (digits : ℕ) (loads : Text → Option Json) (outputs : List Text)
      (acc : List Decimal)
      → matches d acc ≡ true
      → matches d (add_outputs digit_of is_word digits loads outputs acc) ≡ true
  unfolding add_outputs add_output
  kept-outputs d digits loads [] acc h = h
  kept-outputs d digits loads (raw ∷ outputs) acc h =
      kept-outputs d digits loads outputs _ (kept-output (loads raw))
    where
      kept-output :
          (o : Option Json) → matches d (add_output digit_of is_word digits o raw acc) ≡ true
      kept-output none = matches-append d (values (extract_numbers digit_of is_word raw)) acc h
      kept-output (some v) = kept-json d digits v acc h

  -- One of the outputs is JSON in which the number occurs.
  abbrev pub Returned : ℤ → (Text → Option Json) → List Text → Type 0
  Returned n loads [] = ⊥
  Returned n loads (raw ∷ outputs) =
      ((v : Json) × (loads raw ≡ some v) × Occurs n v) ⊎ Returned n loads outputs

  found-outputs :
      (n digits : ℕ) (loads : Text → Option Json) (outputs : List Text) (acc : List Decimal)
      → Returned (pos (n * 10 ^ digits)) loads outputs
      → matches (whole n) (add_outputs digit_of is_word digits loads outputs acc) ≡ true
  unfolding add_outputs add_output
  found-outputs n digits loads [] acc r = absurd r
  found-outputs n digits loads (raw ∷ outputs) acc (inl (v, read, o)) =
      kept-outputs (whole n) digits loads outputs _ (rw read (found-json n digits v acc o))
  found-outputs n digits loads (raw ∷ outputs) acc (inr r) =
      found-outputs n digits loads outputs _ r

  module _ (ascii : IsAscii digit_of) where
    -- An answer that is a whole number is reported, as it stands, just if it is at least 100, is not
    -- a year from 1900 to 2099, and is close to no known number.
    pub check_answer-show :
        (n : ℕ) (known : List Decimal)
        → (check_answer digit_of is_word (codes (show n)) known).unexplained
          ≡ (if is_figure n && not (matches (whole n) known) then codes (show n) ∷ [] else [])
    unfolding check_answer
    check_answer-show n known = rw (extract_numbers-show digit_of ascii is_word n) (
        reported (is_figure n) (matches (whole n) known) (quoted n (codes (show n))) known
          (is_significant-quoted n (codes (show n))) refl)

    -- A whole number that occurs in the JSON output of a tool, at any depth, is not reported when the
    -- answer is this number, whatever the other outputs and the user's text hold.
    pub check_answer-Returned :
        (n digits : ℕ) (loads : Text → Option Json) (outputs : List Text) (extra : Text)
        → Returned (pos (n * 10 ^ digits)) loads outputs
        → (check_answer digit_of is_word
            (codes (show n))
            (collect_known_numbers digit_of is_word digits loads outputs extra)).unexplained
          ≡ []
    unfolding collect_known_numbers
    check_answer-Returned n digits loads outputs extra r =
        check_answer-show n (collect_known_numbers digit_of is_word digits loads outputs extra)
        ∙ rw
            (matches-append (whole n) (values (extract_numbers digit_of is_word extra)) _
              (found-outputs n digits loads outputs [] r))
            (ground arith)
