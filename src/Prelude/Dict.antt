-- ===== src/Prelude/Dict.antt =====
-- Python's `dict`: entries in the order of their first insertion.
use mathlib.Core.Path.{◌≡◌, refl}
use mathlib.Core.Option.{Option, none, some}
use mathlib.Core.List.{List, [], ◌∷◌}
use native.Mathlib.Omega.{arith}
use mathlib.Core.Logic.{inl, inr}
use mathlib.Core.Bool.{false}
use chic_mcp.Prelude.Tests.{if◌then◌else◌, Bool-cases}
use chic_mcp.Prelude.Equality.{Eq, ◌==◌}

abbrev pub Dict {ℓ κ} : Type ℓ → Type κ → Type (ℓ ⊔ κ)
Dict K V = List (K × V)

module _ {ℓ κ} {K : Type ℓ} {V : Type κ} ⦃e : Eq K⦄ where
  -- `d.get(k)`
  unfoldable pub get : Dict K V → K → Option V
  get [] k = none
  get ((j, v) ∷ m) k = if j == k then some v else get m k

  -- `d[k] = v`: an old key keeps its place, a new one goes to the end.
  unfoldable pub put : Dict K V → K → V → Dict K V
  put [] k v = (k, v) ∷ []
  put ((j, w) ∷ m) k v = if j == k then (j, v) ∷ m else (j, w) ∷ put m k v

  -- `d.pop(k, None)`
  unfoldable pub remove : Dict K V → K → Dict K V
  remove [] k = []
  remove ((j, w) ∷ m) k = if j == k then remove m k else (j, w) ∷ remove m k

  pub get-put :
      (m : Dict K V) (k j : K) (v : V) → get (put m k v) j ≡ (if k == j then some v else get m j)
  unfolding get put
  get-put [] k j v = refl
  get-put ((i, w) ∷ m) k j v =
      ground (arith, e.same_iff k j, e.same_iff i k, e.same_iff i j, get-put m k j v)

  pub get-remove :
      (m : Dict K V) (k j : K) → get (remove m k) j ≡ (if k == j then none else get m j)
  unfolding get remove
  get-remove [] k j = ground arith
  get-remove ((i, w) ∷ m) k j =
      ground (arith, e.same_iff k j, e.same_iff i k, e.same_iff i j, get-remove m k j)

module _ {ℓ κ} {K : Type ℓ} {V : Type κ} ⦃e : Eq K⦄ where
  -- No key stands twice.
  abbrev pub Distinct : Dict K V → Type κ
  Distinct [] = Unit
  Distinct ((k, v) ∷ m) = (get m k ≡ none) × Distinct m

module _ {ℓ κ} {K : Type ℓ} {V : Type κ} ⦃e : Eq K⦄ where
  get-put_other :
      (m : Dict K V) (k j : K) (v : V) → j == k ≡ false → get m j ≡ none → get (put m k v) j ≡ none
  get-put_other m k j v other missing =
      ground (arith, get-put m k j v, e.same_iff k j, e.same_iff j k)

  pub put-Distinct : (m : Dict K V) (k : K) (v : V) → Distinct m → Distinct (put m k v)
  unfolding put get
  put-Distinct [] k v d = (refl, tt)
  put-Distinct ((i, w) ∷ m) k v d = elim (Bool-cases (i == k)) [
    | inl same ↦ rw (same, put) d
    | inr other ↦ rw (other, put) (get-put_other m k i v other d.0, put-Distinct m k v d.1)
  ]
