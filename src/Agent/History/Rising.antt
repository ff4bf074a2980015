-- ===== src/Agent/History/Rising.antt =====
-- Messages whose ids rise: the turns behind a watermark, in two parts.
use chic_mcp.Prelude.{
  ℕ, zero, suc, ◌≤◌, ◌<◌, ◌≡◌, refl, ap, ◌∙◌, Bool, ◌&&◌, List, [], ◌∷◌, ◌++◌, All, map, filter,
  take, drop, length, ltb, ◌==◌, string_eq, nat_eq, pair_eq, Bool-cases, inl, inr, arith,
}
use chic_mcp.Store.Chat.{Message, MessageRow, Store, to_message, rows_after, is_turn}
use chic_mcp.Agent.History.{last_id}

-- The ids of the messages rise.
abbrev pub IsRising : List MessageRow → Type 0
IsRising [] = Unit
IsRising (m ∷ ms) = All (λ n. m.id < n.id) ms × IsRising ms

-- The turns of a user after an id, without the limit of a scan
abbrev pub turn_rows : ℕ → ℕ → List MessageRow → List MessageRow
turn_rows u since ms = filter is_turn (rows_after u since ms)

abbrev pub turns_since : ℕ → ℕ → Store → List Message
turns_since u since s = map to_message (turn_rows u since s.messages)

module _ (p : MessageRow → Bool) where
  All-filter :
      (k : ℕ) (ms : List MessageRow) → All (λ n. k < n.id) ms → All (λ n. k < n.id) (filter p ms)
  All-filter k [] h = tt
  All-filter k (m ∷ ms) h = elim (Bool-cases (p m)) [
    | inl t ↦ rw t (h.0, All-filter k ms h.1)
    | inr f ↦ rw f (All-filter k ms h.1)
  ]

  filter-IsRising : (ms : List MessageRow) → IsRising ms → IsRising (filter p ms)
  filter-IsRising [] h = tt
  filter-IsRising (m ∷ ms) h = elim (Bool-cases (p m)) [
    | inl t ↦ rw t (All-filter m.id ms h.0, filter-IsRising ms h.1)
    | inr f ↦ rw f (filter-IsRising ms h.1)
  ]

-- The messages with a larger id
abbrev above : ℕ → List MessageRow → List MessageRow
above k ms = filter (λ m. ltb k m.id) ms

above-All : (k : ℕ) (ms : List MessageRow) → All (λ n. k < n.id) ms → above k ms ≡ ms
above-All k [] h = refl
above-All k (m ∷ ms) h = ground (arith, above-All k ms)

-- Narrowing the rows to a larger id
pub turn_rows-above :
    (u a b : ℕ) (ms : List MessageRow) → a ≤ b → turn_rows u b ms ≡ above b (turn_rows u a ms)
turn_rows-above u a b [] h = refl
turn_rows-above u a b (m ∷ ms) h = ground (arith, turn_rows-above u a b ms h)

-- The id of the last of the first rows
last_of : ℕ → ℕ → List MessageRow → ℕ
last_of d zero ms = d
last_of d (suc k) [] = d
last_of d (suc k) (m ∷ ms) = last_of m.id k ms

last_of-le :
    (d k : ℕ) (ms : List MessageRow) → All (λ n. d < n.id) ms → IsRising ms → d ≤ last_of d k ms
unfolding last_of
last_of-le d zero ms h r = omega arith
last_of-le d (suc k) [] h r = omega arith
last_of-le d (suc k) (m ∷ ms) h r = omega (arith, h.0, last_of-le m.id k ms r.0 r.1)

above-last_of :
    (d k : ℕ) (ms : List MessageRow)
    → All (λ n. d < n.id) ms
    → IsRising ms
    → above (last_of d k ms) ms ≡ drop k ms
unfolding last_of
above-last_of d zero ms h r = above-All d ms h
above-last_of d (suc k) [] h r = refl
above-last_of d (suc k) (m ∷ ms) h r =
    let up = last_of-le m.id k ms r.0 r.1 in ground (arith, above-last_of m.id k ms r.0 r.1, up)

last_id-last_of :
    (d k n : ℕ) (m : MessageRow) (ms : List MessageRow)
    → k ≤ n
    → last_id (to_message m ∷ take k (map to_message (take n ms))) ≡ last_of m.id k ms
unfolding last_id last_of
last_id-last_of d zero n m ms h = refl
last_id-last_of d (suc k) (suc n) m [] h = refl
last_id-last_of d (suc k) (suc n) m (x ∷ ms) h = last_id-last_of x.id k n x ms (omega arith)
last_id-last_of d (suc k) zero m ms h = absurd (omega arith)

above_head :
    (j : ℕ) (m : MessageRow) (ms : List MessageRow)
    → IsRising (m ∷ ms)
    → above (last_of m.id j ms) (m ∷ ms) ≡ drop j ms
above_head j m ms r =
    let up = last_of-le m.id j ms r.0 r.1 in ground (arith, above-last_of m.id j ms r.0 r.1, up)

pub fold_rest :
    (j n : ℕ) (ms : List MessageRow)
    → 0 < j
    → j ≤ n
    → j ≤ length ms
    → IsRising ms
    → above (last_id (take j (map to_message (take n ms)))) ms ≡ drop j ms
fold_rest zero n ms a b h r = absurd (omega arith)
fold_rest (suc j) zero ms a b h r = absurd (omega arith)
fold_rest (suc j) (suc n) [] a b h r = absurd (omega arith)
fold_rest (suc j) (suc n) (m ∷ ms) a b h r =
    ap (λ i. above i (m ∷ ms)) (last_id-last_of m.id j n m ms (omega arith)) ∙ above_head j m ms r

-- The last folded id lies above a bound of all.
pub fold_above :
    (a j n : ℕ) (ms : List MessageRow)
    → 0 < j
    → j ≤ n
    → j ≤ length ms
    → All (λ m. a < m.id) ms
    → IsRising ms
    → a ≤ last_id (take j (map to_message (take n ms)))
fold_above a zero n ms p q h al r = absurd (omega arith)
fold_above a (suc j) zero ms p q h al r = absurd (omega arith)
fold_above a (suc j) (suc n) [] p q h al r = absurd (omega arith)
fold_above a (suc j) (suc n) (m ∷ ms) p q h al r =
    rw (last_id-last_of m.id j n m ms (omega arith))
      (omega (arith, al.0, last_of-le m.id j ms r.0 r.1))

pub fold_parts :
    (j n : ℕ) (ms : List MessageRow)
    → j ≤ n
    → take j (map to_message (take n ms)) ++ map to_message (drop j ms) ≡ map to_message ms
fold_parts zero n ms h = refl
fold_parts (suc j) zero ms h = absurd (omega arith)
fold_parts (suc j) (suc n) [] h = refl
fold_parts (suc j) (suc n) (m ∷ ms) h = ap (◌∷◌ (to_message m)) (fold_parts j n ms (omega arith))

pub All-turn_rows : (u a : ℕ) (ms : List MessageRow) → All (λ m. a < m.id) (turn_rows u a ms)
All-turn_rows u a [] = tt
All-turn_rows u a (m ∷ ms) = elim (Bool-cases (m.user_id == u && ltb a m.id)) [
  | inl own ↦ elim (Bool-cases (is_turn m)) [
    | inl turn ↦ rw (own, turn) (ground arith, All-turn_rows u a ms)
    | inr other ↦ rw (own, other) (All-turn_rows u a ms)
  ]
  | inr other ↦ rw other (All-turn_rows u a ms)
]

pub turn_rows-IsRising :
    (u a : ℕ) (ms : List MessageRow) → IsRising ms → IsRising (turn_rows u a ms)
turn_rows-IsRising u a ms h = filter-IsRising is_turn (rows_after u a ms) (filter-IsRising _ ms h)
