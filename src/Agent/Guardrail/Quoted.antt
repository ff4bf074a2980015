-- ===== src/Agent/Guardrail/Quoted.antt =====
-- A whole number that an answer quotes: it is read as itself.
use mathlib.Core.List.{append-nil}
use chic_mcp.Prelude.{
  ℕ, zero, suc, ◌+◌, ◌-◌, ◌*◌, ◌≡◌, refl, ap, Bool, true, false, ◌&&◌, Option, none, some, [], ◌∷◌,
  filter, length, leb, nat_eq, Bool-cases, inl, inr, arith,
}
use chic_mcp.Prelude.Int.{pos}
use chic_mcp.Prelude.Text.{Text, codes, is_digit, parse_digits}
use chic_mcp.Prelude.Decimal.{show, Digits, show-Digits, parse_digits-show, strip-Digits}
use chic_mcp.Agent.Guardrail.Spans.{is_decimal, before_rest}
use chic_mcp.Agent.Guardrail.Spans.Kept.{cleaned-Digits}
use chic_mcp.Agent.Guardrail.Scan.{
  ParsedNumber, Found, is_group, is_minus, percent_follows, fraction_part, number_from, digit_run,
  whole_part, number_at, read_digits, parsed, scan, extract_numbers,
}

-- What a whole number is read as
abbrev pub quoted : ℕ → Text → ParsedNumber
quoted n s = record {
  value = record { mantissa = pos n; places = 0 };
  text = s;
  is_percent = false;
  grouped = false;
  fractional = false;
}

module _ (digit_of : ℕ → Option ℕ) where
  -- The ASCII digits have their values.
  abbrev pub IsAscii : Type 0
  IsAscii = (c : ℕ) → is_digit c ≡ true → digit_of c ≡ some (c - 48)

  module _ (ascii : IsAscii) where
    is_decimal-digit : (c : ℕ) → is_digit c ≡ true → is_decimal digit_of c ≡ true
    unfolding is_decimal
    is_decimal-digit c h = rw (is_decimal, ascii c h) refl

    digit_run-Digits : (s : Text) → Digits s → digit_run digit_of s ≡ (s, [])
    unfolding digit_run
    digit_run-Digits [] d = refl
    digit_run-Digits (c ∷ s) d = rw (is_decimal-digit c d.0, digit_run-Digits s d.1) refl

    whole_part-Digits : (s : Text) → Digits s → whole_part digit_of s ≡ (s, [])
    unfolding whole_part
    whole_part-Digits s d = elim (Bool-cases (leb 1 (length s) && leb (length s) 3)) [
      | inl short ↦ rw (digit_run-Digits s d, short, append-nil s) refl
      | inr long ↦ rw (digit_run-Digits s d, long) refl
    ]

    filter-Digits : (s : Text) → Digits s → filter (is_decimal digit_of) s ≡ s
    filter-Digits [] d = refl
    filter-Digits (c ∷ s) d = rw (is_decimal-digit c d.0) (ap (◌∷◌ c) (filter-Digits s d.1))

    read_digits-parse :
        (acc : ℕ) (s : Text)
        → Digits s
        → parse_digits acc true s ≡ some (read_digits digit_of acc s)
    unfolding parse_digits read_digits
    read_digits-parse acc [] d = refl
    read_digits-parse acc (c ∷ s) d =
        rw (d.0, ascii c d.0, read_digits) (read_digits-parse (acc * 10 + (c - 48)) s d.1)

    -- The match that a text of digits is
    abbrev all_of : Text → Found
    all_of s = record { minus = []; whole = s; fraction = []; has_fraction = false; rest = [] }

    number_from-Digits :
        (c : ℕ) (s : Text)
        → Digits (c ∷ s)
        → number_from digit_of [] (c ∷ s) ≡ some (all_of (c ∷ s))
    unfolding number_from fraction_part
    number_from-Digits c s d = rw (whole_part-Digits (c ∷ s) d) refl

    digit_minus : (c : ℕ) → is_digit c ≡ true → is_minus c ≡ false
    unfolding is_minus
    digit_minus c h = ground arith

    number_at-Digits :
        (is_word : ℕ → Bool) (c : ℕ) (s : Text)
        → Digits (c ∷ s)
        → number_at digit_of is_word none (c ∷ s) ≡ some (all_of (c ∷ s))
    unfolding number_at
    number_at-Digits is_word c s d = rw (digit_minus c d.0) (number_from-Digits c s d)

    scan-nil :
        (is_word : ℕ → Bool) (fuel : ℕ) (prev : Option ℕ) → scan digit_of is_word fuel prev [] ≡ []
    unfolding scan
    scan-nil is_word zero prev = refl
    scan-nil is_word (suc fuel) prev = refl

    scan-Digits :
        (is_word : ℕ → Bool) (c : ℕ) (s : Text)
        → Digits (c ∷ s)
        → scan digit_of is_word (length (c ∷ s)) none (c ∷ s)
          ≡ parsed digit_of (all_of (c ∷ s)) ∷ []
    unfolding scan
    scan-Digits is_word c s d =
        rw
          (
            number_at-Digits is_word c s d,
            scan,
            scan-nil is_word (length s) (before_rest (c ∷ s) []),
          )
          refl

    no_group : (s : Text) → Digits s → filter is_group s ≡ []
    unfolding is_group
    no_group [] d = refl
    no_group (c ∷ s) d = ground (arith, d.0, no_group s d.1)

    parsed-Digits :
        (n : ℕ) (s : Text)
        → Digits s
        → read_digits digit_of 0 s ≡ n
        → parsed digit_of (all_of s) ≡ quoted n s
    unfolding parsed percent_follows
    parsed-Digits n s d h =
        rw (append-nil s, filter-Digits s d, h, no_group s d, strip-Digits s d) refl

    read_digits-all :
        (n : ℕ) (s : Text)
        → Digits s
        → parse_digits 0 false s ≡ some n
        → read_digits digit_of 0 s ≡ n
    unfolding parse_digits read_digits
    read_digits-all n [] d h = absurd (cc)
    read_digits-all n (c ∷ s) d h =
        rw (ascii c d.0, read_digits)
          (cc (read_digits-parse (0 * 10 + (c - 48)) s d.1, rw d.0 at h))

    extract-all :
        (is_word : ℕ → Bool) (n : ℕ) (s : Text)
        → Digits s
        → parse_digits 0 false s ≡ some n
        → extract_numbers digit_of is_word s ≡ quoted n s ∷ []
    unfolding extract_numbers parse_digits
    extract-all is_word n [] d h = absurd (cc)
    extract-all is_word n (c ∷ s) d h =
        rw (cleaned-Digits digit_of is_word (c ∷ s) d, scan-Digits is_word c s d)
          (ap (λ p. p ∷ []) (parsed-Digits n (c ∷ s) d (read_digits-all n (c ∷ s) d h)))

    -- A text that is the number n, as `str` prints it, is read as one figure of value n.
    pub extract_numbers-show :
        (is_word : ℕ → Bool) (n : ℕ)
        → extract_numbers digit_of is_word (codes (show n)) ≡ quoted n (codes (show n)) ∷ []
    extract_numbers-show is_word n =
        extract-all is_word n (codes (show n)) (show-Digits n) (parse_digits-show n)
