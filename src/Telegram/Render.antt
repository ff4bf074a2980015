-- ===== src/Telegram/Render.antt =====
-- The split of a long answer into messages, `source_chunks` of chic/telegram/render.py, on the code
-- points of a text.
pub mod Split
mod Tests
use chic_mcp.Prelude.{
  ℕ, zero, suc, ◌&&◌, Bool, true, false, Option, none, some, List, [], ◌∷◌, take, drop, length, ltb,
  leb, ◌==◌, nat_eq, if◌then◌else◌,
}
use chic_mcp.Prelude.Text.{Text, is_empty}

abbrev pub split_target : ℕ
split_target = 3500

abbrev pub newline : ℕ
newline = 10

-- `s.rfind("\n", lo)` on what stands from the index `i`; `none` is -1.
unfoldable pub last_newline : ℕ → ℕ → Text → Option ℕ
last_newline lo i [] = none
last_newline lo i (c ∷ s) = elim (last_newline lo (suc i) s) as (λ x. Option ℕ) [
  | some n ↦ some n
  | none ↦ if c == newline && leb lo i then some i else none
]

-- Where the next chunk ends
unfoldable pub cut_of : Option ℕ → ℕ
cut_of none = split_target
cut_of (some n) = suc n

unfoldable pub attach_newline : ℕ → Text → Text
attach_newline c [] = if c == newline then [] else c ∷ []
attach_newline c (d ∷ s) = c ∷ d ∷ s

-- `s.rstrip("\n")`
unfoldable pub strip_newlines : Text → Text
unfolding attach_newline
strip_newlines [] = []
strip_newlines (c ∷ s) = attach_newline c (strip_newlines s)

-- `if rest: chunks.append(rest)`
last_chunk : Text → List Text
last_chunk [] = []
last_chunk (c ∷ s) = (c ∷ s) ∷ []

unfoldable pub next_cut : Text → ℕ
unfolding cut_of
next_cut rest = cut_of (last_newline 1750 0 (take split_target rest))

-- The loop; each round takes a character at least.
unfoldable pub chunks : ℕ → Text → List Text
unfolding last_chunk
chunks zero rest = []
chunks (suc fuel) rest = elim (ltb split_target (length rest)) as (λ x. List Text) [
  | true ↦ strip_newlines (take (next_cut rest) rest) ∷ chunks fuel (drop (next_cut rest) rest)
  | false ↦ last_chunk (strip_newlines rest)
]

-- `source_chunks`
unfoldable pub source_chunks : Text → List Text
source_chunks text = if leb (length text) split_target then text ∷ [] else chunks (length text) text
