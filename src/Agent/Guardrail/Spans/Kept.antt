-- ===== src/Agent/Guardrail/Spans/Kept.antt =====
-- A text of digits has nothing that is cut out.
use chic_mcp.Prelude.{
  ℕ, zero, suc, ◌≡◌, refl, ap, Bool, true, false, Option, none, some, [], ◌∷◌, ◌++◌, length,
  Bool-cases, inl, inr, arith,
}
use chic_mcp.Prelude.Text.{Text, codes, is_digit}
use chic_mcp.Prelude.Decimal.{Digits}
use chic_mcp.Agent.Guardrail.Spans.{
  Pattern, after, or_try, is, literal, digits, starts_word, fenced, inline, url, iso_moment,
  dotted_day, span_at, blank_spans, cleaned, some_unblank,
}

-- A pattern with a character that is other digit matches other digits.
after-Digits :
    (ps qs : Pattern) (p : ℕ → Bool) (s : Text)
    → ((c : ℕ) → is_digit c ≡ true → p c ≡ false)
    → Digits s
    → after (ps ++ (p ∷ qs)) s ≡ none
unfolding after
after-Digits [] qs p [] other d = refl
after-Digits [] qs p (c ∷ s) other d = rw (after, other c d.0) refl
after-Digits (q ∷ ps) qs p [] other d = refl
after-Digits (q ∷ ps) qs p (c ∷ s) other d = elim (Bool-cases (q c)) [
  | inl hit ↦ rw (after, hit) (after-Digits ps qs p s other d.1)
  | inr miss ↦ rw (after, miss) refl
]

no_tick : (c : ℕ) → is_digit c ≡ true → is b'`' c ≡ false
unfolding is
no_tick c h = ground arith

no_letter : (c : ℕ) → is_digit c ≡ true → is b'h' c ≡ false
unfolding is
no_letter c h = ground arith

no_dash : (c : ℕ) → is_digit c ≡ true → is b'-' c ≡ false
unfolding is
no_dash c h = ground arith

no_dot : (c : ℕ) → is_digit c ≡ true → is b'.' c ≡ false
unfolding is
no_dot c h = ground arith

-- No literal that starts with a tick or a letter matches digits.
ticks-Digits : (ps : Text) (s : Text) → Digits s → after (literal (b'`' ∷ ps)) s ≡ none
unfolding literal
ticks-Digits ps s d = after-Digits [] (literal ps) (is b'`') s no_tick d

letters-Digits : (ps : Text) (s : Text) → Digits s → after (literal (b'h' ∷ ps)) s ≡ none
unfolding literal
letters-Digits ps s d = after-Digits [] (literal ps) (is b'h') s no_letter d

fence-Digits : (s : Text) → Digits s → after (literal (codes "```")) s ≡ none
fence-Digits s d = ticks-Digits (codes "``") s d

tick-Digits : (s : Text) → Digits s → after (literal (codes "`")) s ≡ none
tick-Digits s d = ticks-Digits [] s d

https-Digits : (s : Text) → Digits s → after (literal (codes "https://")) s ≡ none
https-Digits s d = letters-Digits (codes "ttps://") s d

http-Digits : (s : Text) → Digits s → after (literal (codes "http://")) s ≡ none
http-Digits s d = letters-Digits (codes "ttp://") s d

fenced-Digits : (s : Text) → Digits s → fenced s ≡ none
unfolding fenced
fenced-Digits s d = rw (fence-Digits s d, fenced) refl

inline-Digits : (s : Text) → Digits s → inline s ≡ none
unfolding inline
inline-Digits s d = rw (tick-Digits s d, inline) refl

url-Digits :
    (is_word : ℕ → Bool) (prev : Option ℕ) (s : Text) → Digits s → url is_word prev s ≡ none
unfolding url or_try some_unblank
url-Digits is_word prev s d = elim (Bool-cases (starts_word is_word prev)) [
  | inl start ↦ rw (start, https-Digits s d, http-Digits s d) refl
  | inr inside ↦ rw inside refl
]

module _ (digit_of : ℕ → Option ℕ) where
  iso_moment-Digits : (s : Text) → Digits s → iso_moment digit_of s ≡ none
  unfolding iso_moment or_try
  iso_moment-Digits s d = rw (after-Digits (digits digit_of 4) _ (is b'-') s no_dash d) refl

  dotted_day-Digits : (s : Text) → Digits s → dotted_day digit_of s ≡ none
  unfolding dotted_day or_try
  dotted_day-Digits s d =
      rw
        (
          after-Digits (digits digit_of 2) [] (is b'.') s no_dot d,
          after-Digits (digits digit_of 1) [] (is b'.') s no_dot d,
        )
        refl

  module _ (is_word : ℕ → Bool) where
    span_at-Digits :
        (prev : Option ℕ) (s : Text) → Digits s → span_at digit_of is_word prev s ≡ none
    unfolding span_at or_try
    span_at-Digits prev s d =
        rw
          (
            fenced-Digits s d,
            inline-Digits s d,
            url-Digits is_word prev s d,
            iso_moment-Digits s d,
            dotted_day-Digits s d,
          )
          refl

    blank_spans-Digits :
        (fuel : ℕ) (prev : Option ℕ) (s : Text)
        → Digits s
        → blank_spans digit_of is_word fuel prev s ≡ s
    unfolding blank_spans
    blank_spans-Digits zero prev [] d = refl
    blank_spans-Digits zero prev (c ∷ s) d = refl
    blank_spans-Digits (suc fuel) prev [] d = refl
    blank_spans-Digits (suc fuel) prev (c ∷ s) d =
        rw (blank_spans, span_at-Digits prev (c ∷ s) d)
          (ap (◌∷◌ c) (blank_spans-Digits fuel (some c) s d.1))

    pub cleaned-Digits : (s : Text) → Digits s → cleaned digit_of is_word s ≡ s
    unfolding cleaned
    cleaned-Digits s d = blank_spans-Digits (length s) none s d
