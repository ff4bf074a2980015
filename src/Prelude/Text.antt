-- ===== src/Prelude/Text.antt =====
-- Text that the program walks, as code points, with the `str` methods it calls and `int(s)`.
-- White space and digits are the ASCII ones.
use Prim.Native.Nat.{ℕ, ◌+◌, ◌-◌, ◌*◌}
use Prim.Native.Char.{code}
use Prim.Native.String.{String}
use mathlib.Core.Bool.{Bool, true, false, ◌&&◌, ◌||◌}
use mathlib.Core.Option
use mathlib.Core.Option.{Option, none, some}
use mathlib.Core.List.{List, [], ◌∷◌}
use chic_mcp.Prelude.Tests.{leb, nat_beq, if◌then◌else◌}
use chic_mcp.Prelude.Int.{ℤ, pos, neg}

abbrev pub Text : Type 0
Text = List ℕ

-- The code points of a literal.
abbrev pub codes : String → Text
codes String.[] = []
codes (String.◌∷◌ c s) = code c ∷ codes s

-- `not s`
abbrev pub is_empty {ℓ} : {A : Type ℓ} → List A → Bool
is_empty [] = true
is_empty (c ∷ s) = false

abbrev pub text_beq : Text → Text → Bool
text_beq [] [] = true
text_beq [] (d ∷ t) = false
text_beq (c ∷ s) [] = false
text_beq (c ∷ s) (d ∷ t) = nat_beq c d && text_beq s t

abbrev pub is_space : ℕ → Bool
is_space c = nat_beq c 32 || leb 9 c && leb c 13 || leb 28 c && leb c 31

unfoldable pub strip_left : Text → Text
strip_left [] = []
strip_left (c ∷ s) = if is_space c then strip_left s else c ∷ s

-- A character before a stripped rest.
unfoldable pub attach : ℕ → Text → Text
attach c [] = if is_space c then [] else c ∷ []
attach c (d ∷ r) = c ∷ d ∷ r

unfoldable pub strip_right : Text → Text
unfolding attach
strip_right [] = []
strip_right (c ∷ s) = attach c (strip_right s)

-- `s.strip()`
unfoldable pub strip : Text → Text
unfolding strip_left strip_right
strip s = strip_right (strip_left s)

abbrev pub is_digit : ℕ → Bool
is_digit c = leb 48 c && leb c 57

-- Digits with single underscores between them; `ended` says that the last character was a digit.
unfoldable pub parse_digits : ℕ → Bool → Text → Option ℕ
parse_digits acc ended [] = if ended then some acc else none
parse_digits acc ended (c ∷ s) =
    let more = parse_digits (acc * 10 + (c - 48)) true s in
    let after_mark = parse_digits acc false s in
    if is_digit c then more else if nat_beq c b'_' && ended then after_mark else none

unfoldable pub parse_signed : Text → Option ℤ
unfolding parse_digits
parse_signed [] = none
parse_signed (c ∷ s) =
    if nat_beq c b'-'
    then Option.map (λ n. neg (pos n)) (parse_digits 0 false s)
    else if nat_beq c b'+'
    then Option.map pos (parse_digits 0 false s)
    else Option.map pos (parse_digits 0 false (c ∷ s))

-- `int(s)`; `none` is its ValueError.
unfoldable pub parse_int : Text → Option ℤ
unfolding parse_signed strip
parse_int s = parse_signed (strip s)
