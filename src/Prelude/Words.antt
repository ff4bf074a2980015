-- ===== src/Prelude/Words.antt =====
-- `str` methods on whole texts: `s.strip()`, `s.split()` and `" ".join(...)`, with the white space
-- of Python.
use Prim.Native.Nat.{ℕ, zero, suc, ◌≤◌}
use Prim.Native.Char.{Char, code}
use Prim.Native.String.{String, ◌++◌}
use Prim.Native.String.append.{nil, cons}
use mathlib.Core.Path.{◌≡◌, refl}
use mathlib.Core.Bool.{Bool, true, false, not, ◌&&◌, ◌||◌}
use mathlib.Core.List.{List}
use mathlib.Core.Option
use mathlib.Core.Option.{Option, none, some}
use native.Mathlib.Omega.{arith}
use mathlib.Core.Logic.{inl, inr}
use chic_mcp.Prelude.Tests.{Bool-cases, leb, nat_beq, if◌then◌else◌}
use chic_mcp.Prelude.Lists.{All}

-- `c.isspace()`
unfoldable pub is_blank : ℕ → Bool
is_blank c =
    nat_beq c 32
    || leb 9 c && leb c 13
    || leb 28 c && leb c 31
    || nat_beq c 133
    || nat_beq c 160
    || nat_beq c 5760
    || leb 8192 c && leb c 8202
    || nat_beq c 8232
    || nat_beq c 8233
    || nat_beq c 8239
    || nat_beq c 8287
    || nat_beq c 12288

unfoldable pub strip_left : String → String
strip_left String.[] = String.[]
strip_left (String.◌∷◌ c s) = if is_blank (code c) then strip_left s else String.◌∷◌ c s

-- A character before a stripped rest
unfoldable pub attach : Char → String → String
attach c String.[] = if is_blank (code c) then String.[] else String.◌∷◌ c String.[]
attach c (String.◌∷◌ d r) = String.◌∷◌ c (String.◌∷◌ d r)

unfoldable pub strip_right : String → String
unfolding attach
strip_right String.[] = String.[]
strip_right (String.◌∷◌ c s) = attach c (strip_right s)

-- `s.strip()`
unfoldable pub strip : String → String
unfolding strip_left strip_right
strip s = strip_right (strip_left s)

-- A word goes on in the rest.
unfoldable pub goes_on : String → Bool
goes_on String.[] = false
goes_on (String.◌∷◌ c s) = not (is_blank (code c))

-- A character before the words of the rest
unfoldable pub prepend : Char → Bool → List String → List String
prepend c true (List.◌∷◌ w ws) = List.◌∷◌ (String.◌∷◌ c w) ws
prepend c true List.[] = List.◌∷◌ (String.◌∷◌ c String.[]) List.[]
prepend c false ws = List.◌∷◌ (String.◌∷◌ c String.[]) ws

-- `s.split()`
unfoldable pub split : String → List String
unfolding goes_on prepend
split String.[] = List.[]
split (String.◌∷◌ c s) = if is_blank (code c) then split s else prepend c (goes_on s) (split s)

-- `" ".join(words)`
unfoldable pub join : List String → String
join List.[] = ""
join (List.◌∷◌ w List.[]) = w
join (List.◌∷◌ w (List.◌∷◌ v ws)) = w ++ " " ++ join (List.◌∷◌ v ws)

-- `" ".join(s.split())`
unfoldable pub collapse : String → String
unfolding split join
collapse s = join (split s)

-- A text without white space, and one whose white space is spaces
abbrev pub no_blank : String → Bool
no_blank String.[] = true
no_blank (String.◌∷◌ c s) = not (is_blank (code c)) && no_blank s

abbrev pub one_line : String → Bool
one_line String.[] = true
one_line (String.◌∷◌ c s) = (not (is_blank (code c)) || nat_beq (code c) 32) && one_line s

one_line_of_no_blank : (s : String) → no_blank s ≡ true → one_line s ≡ true
one_line_of_no_blank String.[] h = refl
one_line_of_no_blank (String.◌∷◌ c s) h = ground (arith, one_line_of_no_blank s)

nil-append : (t : String) → "" ++ t ≡ t
nil-append t = λ i. nil t i

cons-append : (c : Char) (s t : String) → String.◌∷◌ c s ++ t ≡ String.◌∷◌ c (s ++ t)
cons-append c s t = λ i. cons c s t i

one_line-append : (s t : String) → one_line s ≡ true → one_line t ≡ true → one_line (s ++ t) ≡ true
one_line-append String.[] t h k = rw (nil-append t) k
one_line-append (String.◌∷◌ c s) t h k =
    rw (cons-append c s t) (ground (arith, one_line-append s t))

All-prepend :
    (c : Char) (b : Bool) (ws : List String)
    → is_blank (code c) ≡ false
    → All (λ w. no_blank w ≡ true) ws
    → All (λ w. no_blank w ≡ true) (prepend c b ws)
unfolding prepend
All-prepend c true (List.◌∷◌ w ws) h k = (ground arith, k.1)
All-prepend c true List.[] h k = (ground arith, tt)
All-prepend c false ws h k = (ground arith, k)

All-split : (s : String) → All (λ w. no_blank w ≡ true) (split s)
unfolding split
All-split String.[] = tt
All-split (String.◌∷◌ c s) = elim (Bool-cases (is_blank (code c))) [
  | inl blank ↦ rw blank (All-split s)
  | inr word ↦ rw word (All-prepend c (goes_on s) (split s) word (All-split s))
]

one_line-join : (ws : List String) → All (λ w. no_blank w ≡ true) ws → one_line (join ws) ≡ true
unfolding join is_blank
one_line-join List.[] h = refl
one_line-join (List.◌∷◌ w List.[]) h = one_line_of_no_blank w h.0
one_line-join (List.◌∷◌ w (List.◌∷◌ v ws)) h =
    one_line-append w (" " ++ join (List.◌∷◌ v ws)) (one_line_of_no_blank w h.0)
      (one_line-append " " (join (List.◌∷◌ v ws)) refl (one_line-join (List.◌∷◌ v ws) h.1))

-- The words joined are on one line.
pub one_line-collapse : (s : String) → one_line (collapse s) ≡ true
unfolding collapse
one_line-collapse s = one_line-join (split s) (All-split s)

-- `len(s)`, and `s[i:]`, `s[:n]` for indices that are not negative
abbrev pub chars : String → ℕ
chars String.[] = 0
chars (String.◌∷◌ c s) = suc (chars s)

unfoldable pub drop_chars : ℕ → String → String
drop_chars zero s = s
drop_chars (suc n) String.[] = String.[]
drop_chars (suc n) (String.◌∷◌ c s) = drop_chars n s

unfoldable pub take_chars : ℕ → String → String
take_chars zero s = String.[]
take_chars (suc n) String.[] = String.[]
take_chars (suc n) (String.◌∷◌ c s) = String.◌∷◌ c (take_chars n s)

-- `s.find(c)` and `s.rfind(c)`; `none` is -1.
unfoldable pub find_char : ℕ → String → Option ℕ
find_char a String.[] = none
find_char a (String.◌∷◌ c s) = if nat_beq (code c) a then some 0 else Option.map suc (find_char a s)

unfoldable pub rfind_char : ℕ → String → Option ℕ
rfind_char a String.[] = none
rfind_char a (String.◌∷◌ c s) = elim (rfind_char a s) as (λ x. Option ℕ) [
  | some n ↦ some (suc n)
  | none ↦ if nat_beq (code c) a then some 0 else none
]

-- `s.startswith(prefix)`, with what stands behind the prefix
unfoldable pub after_prefix : String → String → Option String
after_prefix String.[] s = some s
after_prefix (String.◌∷◌ a p) String.[] = none
after_prefix (String.◌∷◌ a p) (String.◌∷◌ c s) =
    if nat_beq (code a) (code c) then after_prefix p s else none

pub chars-take_chars-le : (n : ℕ) (s : String) → chars (take_chars n s) ≤ n
unfolding take_chars
chars-take_chars-le zero s = omega arith
chars-take_chars-le (suc n) String.[] = omega arith
chars-take_chars-le (suc n) (String.◌∷◌ c s) = omega (arith, chars-take_chars-le n s)
