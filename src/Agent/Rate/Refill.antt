-- ===== src/Agent/Rate/Refill.antt =====
-- The tokens of a bucket between two calls.
use native.Mathlib.Nat.{add-mul, zero-mul}
use chic_mcp.Prelude.{
  ℕ, ◌+◌, ◌-◌, ◌*◌, ◌≤◌, ◌≡◌, sym, ap, false, Option, none, some, leb, nat_eq, Bool-cases, inl, inr,
  arith,
}
use chic_mcp.Prelude.Int.{ℤ, pos, ◌+ℤ◌, ◌≤ℤ◌, ltb_ℤ, int_laws}
use chic_mcp.Agent.Rate.{token, elapsed, min_ℤ, refilled}

-- The bucket at a time: its tokens and the refill since the last call, without the cap.
abbrev pub credit : ℕ → ℕ → Option (ℤ × ℕ) → ℕ → ℤ
credit hz per_hour none time = pos (per_hour * token hz)
credit hz per_hour (some (tokens, last)) time = tokens +ℤ pos ((time - last) * per_hour)

-- The bucket was not touched after `time`, and is not in debt.
abbrev pub Past : Option (ℤ × ℕ) → ℕ → Type 0
Past none time = Unit
Past (some (tokens, last)) time = (last ≤ time) × (pos 0 ≤ℤ tokens)

min_ℤ-le_right : (a b : ℤ) → min_ℤ a b ≤ℤ b
unfolding min_ℤ
min_ℤ-le_right a b = ground arith

min_ℤ-le_left : (a b : ℤ) → min_ℤ a b ≤ℤ a
unfolding min_ℤ
min_ℤ-le_left a b = ground arith

pub stretch : (a b c p : ℕ) → a ≤ b → b ≤ c → (c - a) * p ≡ (b - a) * p + (c - b) * p
stretch a b c p h k = rw (sym (add-mul (b - a) (c - b) p)) (ap (λ n. n * p) (omega arith))

elapsed-forward :
    (per_hour : ℕ) (tokens : ℤ) (last now_ts : ℕ)
    → last ≤ now_ts
    → elapsed per_hour tokens last now_ts ≤ℤ tokens +ℤ pos ((now_ts - last) * per_hour)
unfolding elapsed
elapsed-forward per_hour tokens last now_ts h = ground arith

pub refilled-credit :
    (hz per_hour : ℕ) (o : Option (ℤ × ℕ)) (from now_ts : ℕ)
    → Past o from
    → from ≤ now_ts
    → refilled hz per_hour o now_ts ≤ℤ credit hz per_hour o from +ℤ pos ((now_ts - from) * per_hour)
unfolding refilled
refilled-credit hz per_hour none from now_ts p h = omega (
  int_laws,
  min_ℤ-le_left (pos (per_hour * token hz))
      (elapsed per_hour (pos (per_hour * token hz)) now_ts now_ts),
)
refilled-credit hz per_hour (some (tokens, last)) from now_ts p h = omega (
  int_laws,
  min_ℤ-le_right (pos (per_hour * token hz)) (elapsed per_hour tokens last now_ts),
  elapsed-forward per_hour tokens last now_ts (omega arith),
  stretch last from now_ts per_hour p.0 h,
)

pub credit-grows :
    (hz per_hour : ℕ) (o : Option (ℤ × ℕ)) (from now_ts : ℕ)
    → Past o from
    → from ≤ now_ts
    → (credit hz per_hour o now_ts ≤ℤ credit hz per_hour o from +ℤ pos ((now_ts - from) * per_hour))
      × Past o now_ts
credit-grows hz per_hour none from now_ts p h = (omega int_laws, tt)
credit-grows hz per_hour (some (tokens, last)) from now_ts p h =
    (omega (int_laws, stretch last from now_ts per_hour p.0 h), (omega arith, p.1))

nothing : (n : ℕ) → n - n ≡ 0
nothing n = omega arith

pub credit-now :
    (hz per_hour : ℕ) (tokens : ℤ) (now_ts : ℕ)
    → credit hz per_hour (some (tokens, now_ts)) now_ts ≤ℤ tokens
credit-now hz per_hour tokens now_ts = rw (nothing now_ts, zero-mul per_hour) (omega int_laws)

pub credit-Positive :
    (hz per_hour : ℕ) (o : Option (ℤ × ℕ)) (from : ℕ)
    → Past o from
    → pos 0 ≤ℤ credit hz per_hour o from
credit-Positive hz per_hour none from p = omega int_laws
credit-Positive hz per_hour (some (tokens, last)) from p = omega (int_laws, p.1)

min_ℤ-Positive : (a b : ℤ) → pos 0 ≤ℤ a → pos 0 ≤ℤ b → pos 0 ≤ℤ min_ℤ a b
unfolding min_ℤ
min_ℤ-Positive a b h k = ground arith

elapsed-Positive :
    (per_hour : ℕ) (tokens : ℤ) (last now_ts : ℕ)
    → last ≤ now_ts
    → pos 0 ≤ℤ tokens
    → pos 0 ≤ℤ elapsed per_hour tokens last now_ts
unfolding elapsed
elapsed-Positive per_hour tokens last now_ts h k = elim (Bool-cases (leb last now_ts)) [
  | inl forward ↦ rw (forward, elapsed) (omega int_laws)
  | inr back ↦ absurd (ground arith)
]

pub refilled-Positive :
    (hz per_hour : ℕ) (o : Option (ℤ × ℕ)) (from now_ts : ℕ)
    → Past o from
    → from ≤ now_ts
    → pos 0 ≤ℤ refilled hz per_hour o now_ts
unfolding refilled elapsed
refilled-Positive hz per_hour none from now_ts p h =
    min_ℤ-Positive (pos (per_hour * token hz))
      (elapsed per_hour (pos (per_hour * token hz)) now_ts now_ts) (omega arith)
      (elapsed-Positive per_hour (pos (per_hour * token hz)) now_ts now_ts (omega arith)
        (omega arith))
refilled-Positive hz per_hour (some (tokens, last)) from now_ts p h =
    min_ℤ-Positive (pos (per_hour * token hz)) (elapsed per_hour tokens last now_ts) (omega arith)
      (elapsed-Positive per_hour tokens last now_ts (omega arith) p.1)

pub not-low : (r t : ℤ) → ltb_ℤ r t ≡ false → t ≤ℤ r
not-low r t h = ground arith
