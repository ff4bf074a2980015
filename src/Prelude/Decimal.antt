-- ===== src/Prelude/Decimal.antt =====
-- `str(n)` of a number that is not negative, and that `int` reads it back.
use Prim.Native.Char.{code}
use Prim.Native.Nat.{ℕ, zero, suc, ◌+◌, ◌*◌, ◌/◌, ◌%◌, ◌<◌}
use Prim.Native.String.{String, ◌++◌}
use Prim.Native.String.append.{nil, cons}
use mathlib.Core.Path.{◌≡◌, refl, sym, ap, ◌∙◌}
use mathlib.Core.Bool.{Bool, true, false}
use mathlib.Core.Option
use mathlib.Core.Option.{Option, none, some}
use mathlib.Core.Logic.{inl, inr}
use mathlib.Core.List.{List, append_assoc, append-nil}
use mathlib.Core.List
use native.Mathlib.Nat.{zero-mul}
use native.Mathlib.Omega.{arith}
use chic_mcp.Prelude.Tests.{Bool-cases, ltb→lt, ltb, nat_beq, if◌then◌else◌}
use chic_mcp.Prelude.Lists.{All, All-append}
use chic_mcp.Prelude.Int.{pos}
use chic_mcp.Prelude.Text.{
  Text, codes, is_digit, strip_left, strip_right, attach, strip, parse_digits, parse_signed,
  parse_int,
}

-- A digit as a text
unfoldable pub digit : ℕ → String
digit d =
    if nat_beq d 0
    then "0"
    else if nat_beq d 1
    then "1"
    else if nat_beq d 2
    then "2"
    else if nat_beq d 3
    then "3"
    else if nat_beq d 4
    then "4"
    else if nat_beq d 5
    then "5"
    else if nat_beq d 6
    then "6"
    else if nat_beq d 7
    then "7"
    else if nat_beq d 8
    then "8"
    else "9"

-- More fuel than the number has digits is enough.
unfoldable pub show_from : ℕ → ℕ → String
unfolding digit
show_from zero n = ""
show_from (suc fuel) n =
    let front = show_from fuel (n / 10) in if ltb n 10 then digit n else front ++ digit (n % 10)

unfoldable pub show : ℕ → String
unfolding show_from
show n = show_from (suc n) n

codes-append : (s t : String) → codes (s ++ t) ≡ List.◌++◌ (codes s) (codes t)
codes-append String.[] t = ap codes (λ i. nil t i)
codes-append (String.◌∷◌ c s) t =
    ap codes (λ i. cons c s t i) ∙ ap (List.◌∷◌ (code c)) (codes-append s t)

codes-digit : (d : ℕ) → d < 10 → codes (digit d) ≡ List.◌∷◌ (48 + d) List.[]
unfolding digit
codes-digit zero h = refl
codes-digit (suc zero) h = refl
codes-digit (suc (suc zero)) h = refl
codes-digit (suc (suc (suc zero))) h = refl
codes-digit (suc (suc (suc (suc zero)))) h = refl
codes-digit (suc (suc (suc (suc (suc zero))))) h = refl
codes-digit (suc (suc (suc (suc (suc (suc zero)))))) h = refl
codes-digit (suc (suc (suc (suc (suc (suc (suc zero))))))) h = refl
codes-digit (suc (suc (suc (suc (suc (suc (suc (suc zero)))))))) h = refl
codes-digit (suc (suc (suc (suc (suc (suc (suc (suc (suc zero))))))))) h = refl
codes-digit (suc (suc (suc (suc (suc (suc (suc (suc (suc (suc d)))))))))) h = absurd (omega arith)

-- Read after any digits, the text of a number moves them by its digits and adds the number.
abbrev Reads : Text → ℕ → Type 0
Reads s n =
    (m : ℕ) × ((acc : ℕ) (ended : Bool) (rest : Text)
      → parse_digits acc ended (List.◌++◌ s rest) ≡ parse_digits (acc * m + n) true rest)

parse-digit :
    (d acc : ℕ) (ended : Bool) (rest : Text)
    → d < 10
    → parse_digits acc ended (List.◌++◌ (codes (digit d)) rest)
      ≡ parse_digits (acc * 10 + d) true rest
unfolding parse_digits
parse-digit d acc ended rest h = rw (codes-digit d h) (ground arith)

step : (acc m n q r : ℕ) → n ≡ q * 10 + r → (acc * m + q) * 10 + r ≡ acc * (m * 10) + n
step acc m n q r h = grind arith

show_from-Reads : (fuel n : ℕ) → n < fuel → Reads (codes (show_from fuel n)) n
unfolding show_from
show_from-Reads zero n h = absurd (omega arith)
show_from-Reads (suc fuel) n h = elim (Bool-cases (ltb n 10)) [
  | inl small ↦ rw small (10, λ acc ended rest. parse-digit n acc ended rest (ltb→lt n 10 small))
  | inr large ↦
      let front = show_from-Reads fuel (n / 10) (ground arith) in
      rw large (
        front.0 * 10,
        λ acc ended rest.
            ap (parse_digits acc ended) (
              ap (λ t. List.◌++◌ t rest) (codes-append (show_from fuel (n / 10)) (digit (n % 10)))
              ∙ append_assoc (codes (show_from fuel (n / 10))) (codes (digit (n % 10))) rest)
            ∙ front.1 acc ended (List.◌++◌ (codes (digit (n % 10))) rest)
            ∙ parse-digit (n % 10) (acc * front.0 + n / 10) true rest (omega arith)
            ∙ ap (λ x. parse_digits x true rest)
                (step acc (front.0) n (n / 10) (n % 10) (omega arith)),
      )
]

-- All characters are digits.
abbrev pub Digits : Text → Type 0
Digits s = All (λ c. is_digit c ≡ true) s

digit-Digits : (d : ℕ) → d < 10 → Digits (codes (digit d))
digit-Digits d h = rw (codes-digit d h) (ground arith, tt)

show_from-Digits : (fuel n : ℕ) → Digits (codes (show_from fuel n))
unfolding show_from
show_from-Digits zero n = tt
show_from-Digits (suc fuel) n = elim (Bool-cases (ltb n 10)) [
  | inl small ↦ rw small (digit-Digits n (ltb→lt n 10 small))
  | inr large ↦
      rw (large, codes-append (show_from fuel (n / 10)) (digit (n % 10)))
        (All-append (λ c. is_digit c ≡ true) (codes (show_from fuel (n / 10)))
          (codes (digit (n % 10))) (show_from-Digits fuel (n / 10))
          (digit-Digits (n % 10) (omega arith)))
]

strip_left-Digits : (s : Text) → Digits s → strip_left s ≡ s
unfolding strip_left
strip_left-Digits List.[] h = refl
strip_left-Digits (List.◌∷◌ c s) h = ground (arith, h.0)

attach-digit : (c : ℕ) (s : Text) → is_digit c ≡ true → attach c s ≡ List.◌∷◌ c s
unfolding attach
attach-digit c List.[] h = ground arith
attach-digit c (List.◌∷◌ d s) h = refl

strip_right-Digits : (s : Text) → Digits s → strip_right s ≡ s
unfolding strip_right
strip_right-Digits List.[] h = refl
strip_right-Digits (List.◌∷◌ c s) h = rw (strip_right-Digits s h.1) (attach-digit c s h.0)

pub strip-Digits : (s : Text) → Digits s → strip s ≡ s
unfolding strip
strip-Digits s h = rw (strip_left-Digits s h) (strip_right-Digits s h)

signed-Digits : (s : Text) → Digits s → parse_signed s ≡ Option.map pos (parse_digits 0 false s)
unfolding parse_signed parse_digits
signed-Digits List.[] h = refl
signed-Digits (List.◌∷◌ c s) h = ground (arith, h.0)

read_all : (s : Text) (n : ℕ) → Reads s n → parse_digits 0 false s ≡ some n
unfolding parse_digits
read_all s n r =
    ap (parse_digits 0 false) (sym (append-nil s))
    ∙ r.1 0 false List.[]
    ∙ ap some (omega (arith, zero-mul (r.0)))

pub show-Digits : (n : ℕ) → Digits (codes (show n))
unfolding show
show-Digits n = show_from-Digits (suc n) n

pub parse_digits-show : (n : ℕ) → parse_digits 0 false (codes (show n)) ≡ some n
unfolding show
parse_digits-show n =
    read_all (codes (show_from (suc n) n)) n (show_from-Reads (suc n) n (omega arith))

-- A number that is printed is read back.
pub parse_int-show : (n : ℕ) → parse_int (codes (show n)) ≡ some (pos n)
unfolding parse_int
parse_int-show n =
    ap parse_signed (strip-Digits (codes (show n)) (show-Digits n))
    ∙ signed-Digits (codes (show n)) (show-Digits n)
    ∙ ap (Option.map pos) (parse_digits-show n)

pub show_injective : (m n : ℕ) → show m ≡ show n → m ≡ n
show_injective m n e = cc (parse_int-show m, parse_int-show n, ap (λ s. parse_int (codes s)) e)
