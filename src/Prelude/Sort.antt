-- ===== src/Prelude/Sort.antt =====
-- `list.sort`: a stable sort, as insertion from the right. `ahead x y` says that `x`, which stands
-- before `y` in the input, may stay before it.
use Prim.Native.Nat.{ℕ, suc, ◌+◌}
use mathlib.Core.Path.{◌≡◌, refl}
use mathlib.Core.Logic.{inl, inr}
use mathlib.Core.Bool.{Bool, true, false}
use mathlib.Core.List.{List, [], ◌∷◌, Perm}
use mathlib.Core.List.Perm
use native.Mathlib.Omega.{arith}
use chic_mcp.Prelude.Tests.{Bool-cases, if◌then◌else◌}
use chic_mcp.Prelude.Int.{ℤ, ◌+ℤ◌, sum_ℤ, sum_ℤ-cons, int_laws}
use chic_mcp.Prelude.Lists.{sum_of, All, length}

module _ {ℓ} {A : Type ℓ} (ahead : A → A → Bool) where
  unfoldable pub insert : A → List A → List A
  insert x [] = x ∷ []
  insert x (y ∷ ys) = if ahead x y then x ∷ y ∷ ys else y ∷ insert x ys

  unfoldable pub sort : List A → List A
  unfolding insert
  sort [] = []
  sort (x ∷ xs) = insert x (sort xs)

  insert-perm : (x : A) (ys : List A) → Perm (insert x ys) (x ∷ ys)
  unfolding insert
  insert-perm x [] = Perm.refl (x ∷ [])
  insert-perm x (y ∷ ys) = elim (Bool-cases (ahead x y)) [
    | inl h ↦ rw (h, insert) (Perm.refl (x ∷ y ∷ ys))
    | inr h ↦ rw (h, insert) (Perm.trans (Perm.cons y (insert-perm x ys)) (Perm.swap x y ys))
  ]

  pub sort-perm : (xs : List A) → Perm (sort xs) xs
  unfolding sort
  sort-perm [] = Perm.refl []
  sort-perm (x ∷ xs) = Perm.trans (insert-perm x (sort xs)) (Perm.cons x (sort-perm xs))

  -- Any quantity summed over the rows is the same before and after.
  sum_of-insert : (f : A → ℕ) (x : A) (ys : List A) → sum_of f (insert x ys) ≡ f x + sum_of f ys
  unfolding insert
  sum_of-insert f x [] = refl
  sum_of-insert f x (y ∷ ys) = ground (arith, sum_of-insert f x ys)

  pub sum_of-sort : (f : A → ℕ) (xs : List A) → sum_of f (sort xs) ≡ sum_of f xs
  unfolding sort
  sum_of-sort f [] = refl
  sum_of-sort f (x ∷ xs) = omega (arith, sum_of-insert f x (sort xs), sum_of-sort f xs)

  sum_ℤ-insert : (f : A → ℤ) (x : A) (ys : List A) → sum_ℤ f (insert x ys) ≡ f x +ℤ sum_ℤ f ys
  unfolding insert
  sum_ℤ-insert f x [] = sum_ℤ-cons f x []
  sum_ℤ-insert f x (y ∷ ys) = elim (Bool-cases (ahead x y)) [
    | inl h ↦ rw (h, insert) (sum_ℤ-cons f x (y ∷ ys))
    | inr h ↦
        rw (h, insert, sum_ℤ-cons f y (insert x ys), sum_ℤ-insert f x ys, sum_ℤ-cons f y ys)
          (swap (f y) (f x) (sum_ℤ f ys))
  ]
    where
      swap : (a b c : ℤ) → a +ℤ (b +ℤ c) ≡ b +ℤ (a +ℤ c)
      swap a b c = omega int_laws

  pub sum_ℤ-sort : (f : A → ℤ) (xs : List A) → sum_ℤ f (sort xs) ≡ sum_ℤ f xs
  unfolding sort
  sum_ℤ-sort f [] = refl
  sum_ℤ-sort f (x ∷ xs) = rw (sum_ℤ-insert f x (sort xs), sum_ℤ-sort f xs, sum_ℤ-cons f x xs) refl

  length-insert : (x : A) (ys : List A) → length (insert x ys) ≡ suc (length ys)
  unfolding insert
  length-insert x [] = refl
  length-insert x (y ∷ ys) = ground (arith, length-insert x ys)

  pub length-sort : (xs : List A) → length (sort xs) ≡ length xs
  unfolding sort
  length-sort [] = refl
  length-sort (x ∷ xs) = omega (arith, length-insert x (sort xs), length-sort xs)

  -- Each row may stay ahead of every later one.
  abbrev pub IsSorted : List A → Type 0
  IsSorted [] = Unit
  IsSorted (x ∷ xs) = All (λ y. ahead x y ≡ true) xs × IsSorted xs

  module _ {κ} (P : A → Type κ) where
    All-insert : (x : A) (ys : List A) → P x → All P ys → All P (insert x ys)
    unfolding insert
    All-insert x [] h hs = (h, tt)
    All-insert x (y ∷ ys) h hs = elim (Bool-cases (ahead x y)) [
      | inl t ↦ rw (t, insert) (h, hs)
      | inr t ↦ rw (t, insert) (hs.0, All-insert x ys h hs.1)
    ]

    pub All-sort : (xs : List A) → All P xs → All P (sort xs)
    unfolding sort
    All-sort [] h = tt
    All-sort (x ∷ xs) h = All-insert x (sort xs) h.0 (All-sort xs h.1)

module _ {ℓ} {A : Type ℓ} (ahead : A → A → Bool)
    (total : (x y : A) → ahead x y ≡ false → ahead y x ≡ true)
    (trans : (x y z : A) → ahead x y ≡ true → ahead y z ≡ true → ahead x z ≡ true) where
  ahead-All :
      (x y : A) (ys : List A)
      → ahead x y ≡ true
      → All (λ z. ahead y z ≡ true) ys
      → All (λ z. ahead x z ≡ true) ys
  ahead-All x y [] h hs = tt
  ahead-All x y (z ∷ ys) h hs = (trans x y z h hs.0, ahead-All x y ys h hs.1)

  insert-IsSorted : (x : A) (ys : List A) → IsSorted ahead ys → IsSorted ahead (insert ahead x ys)
  unfolding insert
  insert-IsSorted x [] s = (tt, tt)
  insert-IsSorted x (y ∷ ys) s = elim (Bool-cases (ahead x y)) [
    | inl t ↦ rw (t, insert) ((t, ahead-All x y ys t s.0), s)
    | inr t ↦
        rw (t, insert)
          (
            All-insert ahead (λ z. ahead y z ≡ true) x ys (total x y t) s.0,
            insert-IsSorted x ys s.1,
          )
  ]

  pub sort-IsSorted : (xs : List A) → IsSorted ahead (sort ahead xs)
  unfolding sort
  sort-IsSorted [] = tt
  sort-IsSorted (x ∷ xs) = insert-IsSorted x (sort ahead xs) (sort-IsSorted xs)
