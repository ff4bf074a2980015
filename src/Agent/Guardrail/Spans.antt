-- ===== src/Agent/Guardrail/Spans.antt =====
-- What is cut out of a text before its numbers are read: `_STRIP_RE` of chic/agent/guardrail.py,
-- whose alternatives are tried in their order.
pub mod Kept
use chic_mcp.Prelude.{
  ℕ, zero, suc, ◌-◌, Bool, true, false, not, ◌&&◌, ◌||◌, Option, none, some, List, [], ◌∷◌, ◌++◌,
  length, get_elem?, leb, nat_beq, if◌then◌else◌,
}
use chic_mcp.Prelude.Text.{Text, codes}
use chic_mcp.Prelude.Words.{is_blank}

-- A pattern of single characters, and what stands after it if it matches
abbrev pub Pattern : Type 0
Pattern = List (ℕ → Bool)

unfoldable pub after : Pattern → Text → Option Text
after [] s = some s
after (p ∷ ps) [] = none
after (p ∷ ps) (c ∷ s) = elim (p c) as (λ x. Option Text) [ false ↦ none | true ↦ after ps s ]

-- The first alternative that matches
unfoldable pub or_try : Option Text → Option Text → Option Text
or_try none o = o
or_try (some s) o = some s

is : ℕ → ℕ → Bool
is a c = nat_beq a c

literal : Text → Pattern
unfolding is
literal [] = []
literal (a ∷ as') = is a ∷ literal as'

-- `.*?` and an end
until : Pattern → Text → Option Text
unfolding after or_try
until end [] = after end []
until end (c ∷ s) = or_try (after end (c ∷ s)) (until end s)

-- `\S+`
unblank : Text → Text
unblank [] = []
unblank (c ∷ s) = if is_blank c then c ∷ s else unblank s

some_unblank : Option Text → Option Text
unfolding unblank
some_unblank none = none
some_unblank (some []) = none
some_unblank (some (c ∷ s)) = if is_blank c then none else some (unblank s)

-- A match that follows another, and one that may be missing
then_after : Pattern → Option Text → Option Text
then_after p none = none
then_after p (some s) = after p s

then_maybe : Pattern → Option Text → Option Text
unfolding or_try
then_maybe p none = none
then_maybe p (some s) = or_try (after p s) (some s)

unfoldable pub fenced : Text → Option Text
unfolding after until literal
fenced s = elim (after (literal (codes "```")) s) as (λ x. Option Text) [
  | none ↦ none
  | some rest ↦ until (literal (codes "```")) rest
]

unfoldable pub inline : Text → Option Text
unfolding after until literal
inline s = elim (after (literal (codes "`")) s) as (λ x. Option Text) [
  | none ↦ none
  | some rest ↦ until (literal (codes "`")) rest
]

-- The character before a rest of a text, where the rest is shorter
unfoldable pub before_rest : Text → Text → Option ℕ
before_rest s rest = get_elem? s (length s - length rest - 1)

-- `\b` before a letter
starts_word : (ℕ → Bool) → Option ℕ → Bool
starts_word is_word none = true
starts_word is_word (some c) = not (is_word c)

unfoldable pub url : (ℕ → Bool) → Option ℕ → Text → Option Text
unfolding starts_word or_try after some_unblank literal
url is_word prev s =
    if starts_word is_word prev
    then or_try (some_unblank (after (literal (codes "https://")) s))
        (some_unblank (after (literal (codes "http://")) s))
    else none

module _ (digit_of : ℕ → Option ℕ) where
  -- `\d`
  unfoldable pub is_decimal : ℕ → Bool
  is_decimal c = elim (digit_of c) as (λ x. Bool) [ none ↦ false | some d ↦ true ]

  digits : ℕ → Pattern
  unfolding is_decimal
  digits zero = []
  digits (suc n) = is_decimal ∷ digits n

  unfoldable pub iso_moment : Text → Option Text
  unfolding digits is or_try then_after then_maybe after
  iso_moment s =
      let dash = is b'-' in
      let colon = is b':' in
      let day = after (digits 4 ++ (dash ∷ digits 2) ++ (dash ∷ digits 2)) s in
      let time = then_after ((λ c. is b' ' c || is b'T' c) ∷ digits 2 ++ (colon ∷ digits 2)) day in
      or_try (then_maybe (colon ∷ digits 2) time) day

  unfoldable pub dotted_day : Text → Option Text
  unfolding digits is or_try then_after after
  dotted_day s =
      let dot = is b'.' in
      let day = or_try (after (digits 2 ++ (dot ∷ [])) s) (after (digits 1 ++ (dot ∷ [])) s) in
      then_after (digits 4)
        (or_try (then_after (digits 2 ++ (dot ∷ [])) day) (then_after (digits 1 ++ (dot ∷ [])) day))

module _ (digit_of : ℕ → Option ℕ) (is_word : ℕ → Bool) where
  -- What stands after a match at the start of a text
  unfoldable pub span_at : Option ℕ → Text → Option Text
  unfolding or_try fenced inline url iso_moment dotted_day
  span_at prev s = or_try (fenced s) (
      or_try (inline s)
        (or_try (url is_word prev s) (or_try (iso_moment digit_of s) (dotted_day digit_of s))))

  -- `_STRIP_RE.sub(" ", text)`, with as much fuel as the text has characters
  unfoldable pub blank_spans : ℕ → Option ℕ → Text → Text
  unfolding span_at before_rest
  blank_spans fuel prev [] = []
  blank_spans zero prev (c ∷ s) = c ∷ s
  blank_spans (suc fuel) prev (c ∷ s) = elim (span_at prev (c ∷ s)) as (λ x. Text) [
    | none ↦ c ∷ blank_spans fuel (some c) s
    | some rest ↦ b' ' ∷ blank_spans fuel (before_rest (c ∷ s) rest) rest
  ]

  unfoldable pub cleaned : Text → Text
  unfolding blank_spans
  cleaned s = blank_spans (length s) none s
