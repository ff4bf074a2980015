-- ===== src/Prelude/Json.antt =====
-- What `json.loads` returns. A number is kept as an integer: how many steps of some power of ten it is,
-- which the grounding check reads; elsewhere the program looks at such a value only for its truth.
use Prim.Native.Nat.{zero, suc}
use Prim.Native.String.{String}
use mathlib.Core.Bool.{Bool, true, false, not}
use mathlib.Core.Option.{Option, none, some}
use text.Mathlib.Text.{◌==◌ as str_eq}
use chic_mcp.Prelude.Tests.{if◌then◌else◌}
use chic_mcp.Prelude.Int.{ℤ, pos, negsuc}

mutual
  pub data Json : Type 0 where
    null : Json
    bool : Bool → Json
    num : ℤ → Json
    str : String → Json
    arr : Items → Json
    obj : Fields → Json

  pub data Items : Type 0 where
    nil : Items
    cons : Json → Items → Items

  pub data Fields : Type 0 where
    end : Fields
    field : String → Json → Fields → Fields

-- `bool(v)`
unfoldable pub truthy : Json → Bool
truthy null = false
truthy (bool b) = b
truthy (num (pos zero)) = false
truthy (num (pos (suc n))) = true
truthy (num (negsuc n)) = true
truthy (str s) = not (str_eq s "")
truthy (arr nil) = false
truthy (arr (cons v vs)) = true
truthy (obj end) = false
truthy (obj (field k v fs)) = true

-- `d.get(k)` on the fields of an object; the last of several equal keys counts.
unfoldable pub lookup : Fields → String → Option Json
lookup end k = none
lookup (field j v fs) k = elim (lookup fs k) [
  | some w ↦ some w
  | none ↦ if str_eq j k then some v else none
]

-- `d.get(k)`, where a missing key gives `None`.
unfoldable pub get : Fields → String → Json
unfolding lookup
get fs k = elim (lookup fs k) [ some v ↦ v | none ↦ null ]

-- `a or b`
unfoldable pub or_else : Json → Json → Json
unfolding truthy
or_else a b = if truthy a then a else b
