-- ===== src/Prelude/Equality.antt =====
-- Boolean equality as an interface, with instances for numbers and texts.
use Prim.Native.Nat.{ℕ}
use Prim.Native.String.{String}
use mathlib.Core.Path.{◌≡◌, ap}
use mathlib.Core.Logic.{◌↔◌}
use mathlib.Core.Bool.{Bool, true, ◌&&◌}
use text.Mathlib.Text.{◌==◌ as str_eq}
use text.Mathlib.TextEquality.{eq_iff}
use native.Mathlib.Omega.{arith}
use chic_mcp.Prelude.Tests.{nat_beq, nat_beq_iff}

-- A decided equality: its test, and that the test decides.
pub record Eq {κ} (T : Type κ) : Type κ where
  pub same : T → T → Bool
  pub same_iff : (x y : T) → (same x y ≡ true) ↔ (x ≡ y)

and_parts : (x y : Bool) → x && y ≡ true → (x ≡ true) × (y ≡ true)
and_parts x y h = ground arith

module _ {ℓ κ} {A : Type ℓ} {B : Type κ} ⦃e : Eq A⦄ ⦃f : Eq B⦄ where
  abbrev pub pair_beq : A × B → A × B → Bool
  pair_beq (a, b) (c, d) = e.same a c && f.same b d

  pub pair_beq_iff : (p q : A × B) → (pair_beq p q ≡ true) ↔ (p ≡ q)
  pair_beq_iff (a, b) (c, d) = (
    λ h i. (
      (e.same_iff a c).0 ((and_parts (e.same a c) (f.same b d) h).0) i,
      (f.same_iff b d).0 ((and_parts (e.same a c) (f.same b d) h).1) i,
    ),
    λ h. rw ((e.same_iff a c).1 (ap (λ r. r.0) h), (f.same_iff b d).1 (ap (λ r. r.1) h)),
  )

  -- A pair is a tuple of Python, equal by its parts.
  instance abbrev pub pair_eq : Eq (A × B)
  pair_eq = record { same_iff = pair_beq_iff; same = pair_beq }

-- Texts are compared by the string library, numbers by the order of `Prelude.Tests`.
instance abbrev pub string_eq : Eq String
string_eq = record { same_iff = eq_iff; same = str_eq }

instance abbrev pub nat_eq : Eq ℕ
nat_eq = record { same_iff = nat_beq_iff; same = nat_beq }

-- `a == b` of Python, at every type with an instance.
infix 50 ◌==◌
abbrev pub ◌==◌ {κ} : {T : Type κ} ⦃decided : Eq T⦄ → T → T → Bool
◌==◌ ⦃decided⦄ x y = decided.same x y
