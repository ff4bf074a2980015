-- ===== src/Prelude/Sets.antt =====
-- Python's `set`, as a list without repeats, and membership in a list.
use Prim.Native.Nat.{ℕ, suc, ◌+◌}
use mathlib.Core.Path.{◌≡◌, refl}
use mathlib.Core.Bool.{Bool, true, false}
use mathlib.Core.List.{List, [], ◌∷◌, ◌++◌}
use native.Mathlib.Omega.{arith}
use chic_mcp.Prelude.Tests.{if◌then◌else◌, ltb}
use chic_mcp.Prelude.Equality.{Eq, ◌==◌}

module _ {ℓ} {A : Type ℓ} ⦃e : Eq A⦄ where
  -- `x in xs`
  unfoldable pub contains : List A → A → Bool
  contains [] a = false
  contains (x ∷ xs) a = if x == a then true else contains xs a

  -- `s.add(a)`
  unfoldable pub add : A → List A → List A
  add a xs = if contains xs a then xs else a ∷ xs

  -- `s.discard(a)`
  unfoldable pub discard : A → List A → List A
  discard a [] = []
  discard a (x ∷ xs) = if x == a then discard a xs else x ∷ discard a xs

  unfoldable pub occurrences : A → List A → ℕ
  occurrences a [] = 0
  occurrences a (x ∷ xs) = if x == a then suc (occurrences a xs) else occurrences a xs

  pub contains-add :
      (a b : A) (xs : List A) → contains (add a xs) b ≡ (if a == b then true else contains xs b)
  unfolding contains add
  contains-add a b xs = ground (arith, e.same_iff a b)

  pub contains-discard :
      (a b : A) (xs : List A)
      → contains (discard a xs) b ≡ (if a == b then false else contains xs b)
  unfolding contains discard
  contains-discard a b [] = ground arith
  contains-discard a b (x ∷ xs) =
      ground (arith, e.same_iff a b, e.same_iff x a, e.same_iff x b, contains-discard a b xs)

  pub contains-append :
      (xs ys : List A) (a : A)
      → contains (xs ++ ys) a ≡ (if contains xs a then true else contains ys a)
  unfolding contains
  contains-append [] ys a = refl
  contains-append (x ∷ xs) ys a = ground (arith, contains-append xs ys a)

  pub contains-eq-occurrences : (a : A) (xs : List A) → contains xs a ≡ ltb 0 (occurrences a xs)
  unfolding contains occurrences
  contains-eq-occurrences a [] = refl
  contains-eq-occurrences a (x ∷ xs) = ground (arith, contains-eq-occurrences a xs)

  pub occurrences-append :
      (a : A) (xs ys : List A) → occurrences a (xs ++ ys) ≡ occurrences a xs + occurrences a ys
  unfolding occurrences
  occurrences-append a [] ys = omega arith
  occurrences-append a (x ∷ xs) ys = ground (arith, occurrences-append a xs ys)
