-- ===== src/Aggregate/Envelope/Census.antt =====
-- What a report shows of its lines: the first ones in descending order, with the count of all.
use chic_mcp.Prelude.{
  ◌≡◌, refl, Bool, List, [], ◌++◌, drop, take-append-drop, length, length-take, min, ltb,
  Bool-cases, inl, inr, arith, if◌then◌else◌,
}
use mathlib.Core.List.{append-nil}
use chic_mcp.Prelude.Int.{ℤ, pos_part, leb_ℤ}
use chic_mcp.Aggregate.Envelope.{cuts, truncate}

-- Both results of `truncate` on one list: the shown rows and those left out make up the input, and
-- the flag says whether any are left out.
pub truncate_lem :
    {Row : Type 0} (rows : List Row) (limit : ℤ)
    → let cut = truncate rows limit in
      ((rest : List Row) × (cut.0 ++ rest ≡ rows))
      × (cut.1 ≡ length rows)
      × (cut.2 ≡ ltb (length (cut.0)) (length rows))
      × (length (cut.0)
          ≡ (if ltb 0 (pos_part limit) then min (pos_part limit) (length rows) else length rows))
unfolding truncate
truncate_lem {Row = Row} rows limit = elim (Bool-cases (cuts limit (length rows))) [
  | inl cut ↦
      rw (cut, truncate)
        (
          (drop (pos_part limit) rows, take-append-drop (pos_part limit) rows),
          refl,
          ground (arith, length-take (pos_part limit) rows),
          ground (arith, length-take (pos_part limit) rows),
        )
  | inr whole ↦ rw (whole, truncate) (([], append-nil rows), refl, ground arith, ground arith)
]

-- The order of a report's lines.
abbrev pub is_ahead : {Row : Type 0} → (Row → ℤ) → Row → Row → Bool
is_ahead key x y = leb_ℤ (key y) (key x)
