-- ===== src/Telegram/Dedupe.antt =====
-- chic/telegram/dedupe.py: the ring of the last update ids. A read of an empty ring is Python's
-- IndexError, here `none`.
pub mod Window
pub mod Redelivery
use chic_mcp.Prelude.{
  ℕ, zero, suc, ◌+◌, ◌%◌, Bool, true, false, Option, none, some, List, [], ◌∷◌, length, get_elem?,
  set, replicate, ◌==◌, nat_eq, if◌then◌else◌,
}
use chic_mcp.Prelude.Sets.{contains, add, discard}

pub record Dedupe : Type 0 where
  pub seen : List ℕ
  pub ring : List ℕ
  pub next : ℕ

-- `Dedupe.__init__`
unfoldable pub init : ℕ → Dedupe
init n = record { seen = []; ring = replicate n 0; next = 0 }

-- The body after the membership test; `old` is the slot that is overwritten.
remember : Dedupe → ℕ → ℕ → Dedupe
remember d update_id old = record {
  seen = add update_id (if old == 0 then d.seen else discard old d.seen);
  ring = set d.ring d.next update_id;
  next = (d.next + 1) % length (set d.ring d.next update_id);
}

-- `Dedupe.first_seen`
unfoldable pub first_seen : Dedupe → ℕ → Option (Dedupe × Bool)
unfolding remember
first_seen d update_id =
    if contains d.seen update_id then some (d, false) else elim (get_elem? d.ring d.next) [
      | none ↦ none
      | some old ↦ some (remember d update_id old, true)
    ]

-- The updates that a stream of ids lets through, as the webhook meets them.
unfoldable pub run : Dedupe → List ℕ → Option (Dedupe × List Bool)
run d [] = some (d, [])
run d (i ∷ ids) = elim (first_seen d i) [
  | none ↦ none
  | some (d', fresh) ↦ elim (run d' ids) [
    | none ↦ none
    | some (d'', rest) ↦ some (d'', fresh ∷ rest)
  ]
]
