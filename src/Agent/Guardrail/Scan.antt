-- ===== src/Agent/Guardrail/Scan.antt =====
-- The numbers of a text: `_NUMBER_RE` and `extract_numbers` of chic/agent/guardrail.py.
use chic_mcp.Prelude.{
  ℕ, zero, suc, ◌+◌, ◌*◌, Bool, true, false, not, ◌&&◌, ◌||◌, Option, none, some, List, [], ◌∷◌,
  ◌++◌, filter, length, leb, nat_beq, if◌then◌else◌,
}
use chic_mcp.Prelude.Int.{ℤ, pos, neg}
use chic_mcp.Prelude.Text.{Text, is_empty, strip}
use chic_mcp.Agent.Guardrail.Spans.{is_decimal, before_rest, cleaned}

-- A finite `Decimal`: its digits and sign, and how many digits are behind the point
pub record Decimal : Type 0 where
  pub mantissa : ℤ
  pub places : ℕ

-- `ParsedNumber`
pub record ParsedNumber : Type 0 where
  pub value : Decimal
  pub text : Text
  pub is_percent : Bool
  pub grouped : Bool
  pub fractional : Bool

-- `_GROUP`: a space, or one of two that do not break
unfoldable pub is_group : ℕ → Bool
is_group c = nat_beq c 32 || nat_beq c 160 || nat_beq c 8239

-- `[-−]`
unfoldable pub is_minus : ℕ → Bool
is_minus c = nat_beq c b'-' || nat_beq c 8722

-- `[.,]`
unfoldable pub is_point : ℕ → Bool
is_point c = nat_beq c b'.' || nat_beq c b','

-- `after.lstrip(_GROUP)` starts with a percent sign.
unfoldable pub percent_follows : Text → Bool
unfolding is_group
percent_follows [] = false
percent_follows (c ∷ s) = if is_group c then percent_follows s else nat_beq c b'%'

-- A match: the sign, the whole part and the fraction, and what follows
pub record Found : Type 0 where
  pub minus : Text
  pub whole : Text
  pub fraction : Text
  pub has_fraction : Bool
  pub rest : Text

module _ (digit_of : ℕ → Option ℕ) where
  -- A run of digits, and what follows it
  unfoldable pub digit_run : Text → Text × Text
  unfolding is_decimal
  digit_run [] = ([], [])
  digit_run (c ∷ s) =
      let more = digit_run s in if is_decimal digit_of c then (c ∷ more.0, more.1) else ([], c ∷ s)

  -- Groups of three digits after a separator each
  groups : Text → Text × Text
  unfolding is_decimal is_group
  groups (g ∷ a ∷ b ∷ c ∷ s) =
      let more = groups s in
      if is_group g && is_decimal digit_of a && is_decimal digit_of b && is_decimal digit_of c
      then (g ∷ a ∷ b ∷ c ∷ more.0, more.1)
      else ([], g ∷ a ∷ b ∷ c ∷ s)
  groups [] = ([], [])
  groups (g ∷ []) = ([], g ∷ [])
  groups (g ∷ a ∷ []) = ([], g ∷ a ∷ [])
  groups (g ∷ a ∷ b ∷ []) = ([], g ∷ a ∷ b ∷ [])

  -- The second group of the pattern: one to three digits with groups, or else a run
  unfoldable pub whole_part : Text → Text × Text
  unfolding digit_run groups
  whole_part s =
      let run = digit_run s in
      let more = groups (run.1) in
      if leb 1 (length (run.0)) && leb (length (run.0)) 3 then (run.0 ++ more.0, more.1) else run

  -- The optional fraction after a whole part
  unfoldable pub fraction_part : Text → Text → Text → Found
  unfolding is_point digit_run
  fraction_part minus whole [] = record {
    minus = minus;
    whole = whole;
    fraction = [];
    has_fraction = false;
    rest = [];
  }
  fraction_part minus whole (c ∷ s) =
      let run = digit_run s in
      if is_point c && not (is_empty (run.0))
      then record {
        minus = minus;
        whole = whole;
        fraction = c ∷ run.0;
        has_fraction = true;
        rest = run.1;
      }
      else record {
        minus = minus;
        whole = whole;
        fraction = [];
        has_fraction = false;
        rest = c ∷ s;
      }

  unfoldable pub number_from : Text → Text → Option Found
  unfolding whole_part fraction_part
  number_from minus s =
      let whole = whole_part s in
      if is_empty (whole.0) then none else some (fraction_part minus (whole.0) (whole.1))

  -- The number that digits are, read after others
  unfoldable pub read_digits : ℕ → Text → ℕ
  read_digits acc [] = acc
  read_digits acc (c ∷ s) = elim (digit_of c) as (λ x. ℕ) [
    | none ↦ read_digits acc s
    | some d ↦ read_digits (acc * 10 + d) s
  ]

  -- The body of the loop
  unfoldable pub parsed : Found → ParsedNumber
  unfolding is_decimal read_digits percent_follows is_group
  parsed f =
      let digits = filter (is_decimal digit_of) (f.whole ++ f.fraction) in
      let value = pos (read_digits 0 digits) in
      record {
        value = record {
          mantissa = if is_empty f.minus then value else neg value;
          places = length (filter (is_decimal digit_of) f.fraction);
        };
        text = strip (f.minus ++ f.whole ++ f.fraction);
        is_percent = percent_follows f.rest;
        grouped = not (is_empty (filter is_group f.whole));
        fractional = f.has_fraction;
      }

module _ (digit_of : ℕ → Option ℕ) (is_word : ℕ → Bool) where
  -- A match at the start of a text, behind the character before it
  unfoldable pub number_at : Option ℕ → Text → Option Found
  unfolding number_from is_minus is_point
  number_at prev [] = none
  number_at prev (c ∷ s) =
      if (elim prev as (λ x. Bool) [ none ↦ false | some p ↦ is_word p || is_point p ])
      then none
      else if is_minus c
      then number_from digit_of (c ∷ []) s
      else number_from digit_of [] (c ∷ s)

  -- `_NUMBER_RE.finditer`, with as much fuel as the text has characters
  unfoldable pub scan : ℕ → Option ℕ → Text → List ParsedNumber
  unfolding number_at parsed before_rest
  scan zero prev s = []
  scan (suc fuel) prev [] = []
  scan (suc fuel) prev (c ∷ s) = elim (number_at prev (c ∷ s)) as (λ x. List ParsedNumber) [
    | none ↦ scan fuel (some c) s
    | some f ↦ parsed digit_of f ∷ scan fuel (before_rest (c ∷ s) f.rest) f.rest
  ]

  -- `extract_numbers`
  unfoldable pub extract_numbers : Text → List ParsedNumber
  unfolding cleaned scan
  extract_numbers text = let s = cleaned digit_of is_word text in scan (length s) none s
