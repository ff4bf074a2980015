-- ===== src/Telegram/Tests.antt =====
-- chic/telegram: runs at concrete inputs.
use chic_mcp.Prelude.{ℕ, ◌≡◌, refl, arith, true, false, some, none, List, [], ◌∷◌, nat_eq}
use chic_mcp.Prelude.Sets.{contains, add, discard}
use chic_mcp.Telegram.Dedupe.{Dedupe, init, first_seen, run}
use chic_mcp.Telegram.Dedupe.Window.{window, slides, IsValid, init-IsValid, run-slides}

dedupe_code : Unit {0}
unfolding init first_seen run contains add discard
dedupe_code = tt

abbrev ids : List ℕ
ids = 7 ∷ 8 ∷ 7 ∷ 9 ∷ 7 ∷ []

run_two : (d : Dedupe) × (run (init 2) ids ≡ some (d, true ∷ true ∷ false ∷ true ∷ true ∷ []))
unfolding dedupe_code
run_two = (record { seen = 7 ∷ 9 ∷ []; ring = 9 ∷ 7 ∷ []; next = 0 }, refl)

empty_ring : first_seen (init 0) 7 ≡ none
unfolding dedupe_code
empty_ring = refl

run-slides_example :
    (d' : Dedupe) × (run (init 2) ids ≡ some (d', (slides (window (init 2)) ids).1))
    × (window d' ≡ (slides (window (init 2)) ids).0)
    × IsValid d'
run-slides_example = run-slides (init 2) ids (init-IsValid 2 (omega arith)) (omega arith)
