-- ===== src/Prelude/Int.antt =====
-- Signed integers over the native numbers. `omega int_laws` works with the operations shut.
use Prim.Native.Nat.{ℕ, suc, ◌+◌, ◌-◌, ◌*◌, ◌≤◌}
use mathlib.Core.Path.{◌≡◌, refl}
use mathlib.Core.Bool.{Bool}
use mathlib.Core.List.{List, [], ◌∷◌, map}
use native.Mathlib.Omega.{arith}
use chic_mcp.Prelude.Tests.{ltb, leb, if◌then◌else◌}

-- `negsuc n` is -(n + 1).
pub data ℤ : Type 0 where
  pos : ℕ → ℤ
  negsuc : ℕ → ℤ

abbrev pub pos_part : ℤ → ℕ
pos_part (pos n) = n
pos_part (negsuc n) = 0

abbrev pub neg_part : ℤ → ℕ
neg_part (pos n) = 0
neg_part (negsuc n) = suc n

abbrev pub sub_ℕ : ℕ → ℕ → ℤ
sub_ℕ a b = if leb b a then pos (a - b) else negsuc (b - a - 1)

infixl 65 ◌+ℤ◌ ◌-ℤ◌
infixl 70 ◌*ℤ◌
infix 50 ◌≤ℤ◌
unfoldable pub ◌+ℤ◌ : ℤ → ℤ → ℤ
a +ℤ b = sub_ℕ (pos_part a + pos_part b) (neg_part a + neg_part b)

unfoldable pub ◌-ℤ◌ : ℤ → ℤ → ℤ
a -ℤ b = sub_ℕ (pos_part a + neg_part b) (neg_part a + pos_part b)

unfoldable pub ◌*ℤ◌ : ℤ → ℤ → ℤ
a *ℤ b =
    sub_ℕ (pos_part a * pos_part b + neg_part a * neg_part b)
      (pos_part a * neg_part b + neg_part a * pos_part b)

unfoldable pub neg : ℤ → ℤ
neg a = sub_ℕ (neg_part a) (pos_part a)

-- The distance from 0.
abbrev pub abs : ℤ → ℕ
abs a = pos_part a + neg_part a

abbrev pub ◌≤ℤ◌ : ℤ → ℤ → Type 0
a ≤ℤ b = pos_part a + neg_part b ≤ pos_part b + neg_part a

abbrev pub ltb_ℤ : ℤ → ℤ → Bool
ltb_ℤ a b = ltb (pos_part a + neg_part b) (pos_part b + neg_part a)

abbrev pub leb_ℤ : ℤ → ℤ → Bool
leb_ℤ a b = leb (pos_part a + neg_part b) (pos_part b + neg_part a)

pub +ℤ_parts :
    (a b : ℤ)
    → pos_part (a +ℤ b) + neg_part a + neg_part b ≡ neg_part (a +ℤ b) + pos_part a + pos_part b
unfolding ◌+ℤ◌
+ℤ_parts a b = ground arith

pub -ℤ_parts :
    (a b : ℤ)
    → pos_part (a -ℤ b) + neg_part a + pos_part b ≡ neg_part (a -ℤ b) + pos_part a + neg_part b
unfolding ◌-ℤ◌
-ℤ_parts a b = ground arith

pub neg_parts : (a : ℤ) → pos_part (neg a) + pos_part a ≡ neg_part (neg a) + neg_part a
unfolding neg
neg_parts a = ground arith

pub eq_of_parts : (a b : ℤ) → pos_part a + neg_part b ≡ pos_part b + neg_part a → a ≡ b
eq_of_parts a b h = ground arith

pub pos_mul : (a b : ℕ) → pos a *ℤ pos b ≡ pos (a * b)
unfolding ◌*ℤ◌
pos_mul a b = ground arith

pub pos_sub : (a b : ℕ) → b ≤ a → pos a -ℤ pos b ≡ pos (a - b)
unfolding ◌-ℤ◌
pos_sub a b h = ground arith

pub ruleset int_laws = (arith, +ℤ_parts, -ℤ_parts, neg_parts, eq_of_parts)

-- `sum(f(x) for x in xs)`, which adds from the left and starts at 0.
module _ {ℓ} {A : Type ℓ} where
  unfoldable pub sum_from : (A → ℤ) → ℤ → List A → ℤ
  sum_from f acc [] = acc
  sum_from f acc (x ∷ xs) = sum_from f (acc +ℤ f x) xs

  unfoldable pub sum_ℤ : (A → ℤ) → List A → ℤ
  unfolding sum_from
  sum_ℤ f xs = sum_from f (pos 0) xs

  sum_from-acc :
      (f : A → ℤ) (acc b : ℤ) (xs : List A) → sum_from f (acc +ℤ b) xs ≡ acc +ℤ sum_from f b xs
  unfolding sum_from
  sum_from-acc f acc b [] = omega int_laws
  sum_from-acc f acc b (x ∷ xs) = rw (regroup acc b (f x)) (sum_from-acc f acc (b +ℤ f x) xs)
    where
      regroup : (a b c : ℤ) → a +ℤ b +ℤ c ≡ a +ℤ (b +ℤ c)
      regroup a b c = omega int_laws

  pub sum_ℤ-cons : (f : A → ℤ) (x : A) (xs : List A) → sum_ℤ f (x ∷ xs) ≡ f x +ℤ sum_ℤ f xs
  unfolding sum_ℤ
  sum_ℤ-cons f x xs = rw (swap (f x)) (sum_from-acc f (f x) (pos 0) xs)
    where
      swap : (a : ℤ) → pos 0 +ℤ a ≡ a +ℤ pos 0
      swap a = omega int_laws

pub sum_ℤ-nil {ℓ κ} : {A : Type ℓ} {B : Type κ} (f : A → ℤ) (g : B → ℤ) → sum_ℤ f [] ≡ sum_ℤ g []
unfolding sum_ℤ
sum_ℤ-nil f g = refl

pub sum_ℤ-map {ℓ κ} :
    {A : Type ℓ} {B : Type κ} (f : B → ℤ) (g : A → B) (xs : List A)
    → sum_ℤ f (map g xs) ≡ sum_ℤ (λ x. f (g x)) xs
sum_ℤ-map f g [] = sum_ℤ-nil f (λ x. f (g x))
sum_ℤ-map f g (x ∷ xs) =
    rw (sum_ℤ-cons f (g x) (map g xs), sum_ℤ-cons (λ y. f (g y)) x xs, sum_ℤ-map f g xs) refl

pub sum_ℤ-zero {ℓ} : {A : Type ℓ} (f : A → ℤ) → sum_ℤ f [] ≡ pos 0
unfolding sum_ℤ sum_from
sum_ℤ-zero f = refl
