-- ===== src/Jobs/Snapshot.antt =====
-- The snapshot job of chic/jobs/snapshot.py.
use chic_mcp.Prelude.{ℕ, Option, none, some}
use chic_mcp.Prelude.Int.{ℤ, pos}
use chic_mcp.History.Store.{History}
use chic_mcp.History.Snapshot.{Source, Ran, capture}

abbrev pub max_backfill_days : ℤ
max_backfill_days = pos 30

-- `run`, where there is a history: what the capture returns and leaves
unfoldable pub run : {N : Type 0} → (N → ℤ) → Option (Source N × History N) → ℕ → Option (Ran N)
run to_int none now = none
run to_int (some (api, history)) now = some (capture to_int api now max_backfill_days history)
