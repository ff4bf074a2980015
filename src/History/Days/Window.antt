-- ===== src/History/Days/Window.antt =====
-- Which days a run fetches, and which days a coverage report calls gaps.
use chic_mcp.Prelude.{
  ℕ, zero, suc, ◌+◌, ◌-◌, ◌≤◌, ◌<◌, ◌≡◌, refl, ◌∙◌, ap, Bool, true, false, not, ◌&&◌, Option, none,
  some, List, [], ◌∷◌, leb, ltb, length, take, take_of_length-le, subst, ◌==◌, nat_eq, arith,
  Bool-cases, inl, inr,
}
use chic_mcp.Prelude.Int.{ℤ}
use chic_mcp.Prelude.Sets.{contains, add, contains-add}
use chic_mcp.History.Days.{
  days_from, window_size, start_day, sales_days, gaps_from, last_of, to_set, sales_coverage,
}

contains-days_from :
    (fuel day end x : ℕ)
    → suc end ≤ day + fuel
    → contains (days_from fuel day end) x ≡ leb day x && leb x end
unfolding contains days_from
contains-days_from zero day end x h = ground arith
contains-days_from (suc fuel) day end x h = ground (arith, contains-days_from fuel (day + 1) end x)

length-days_from :
    (fuel day end : ℕ) → suc end ≤ day + fuel → length (days_from fuel day end) ≡ suc end - day
unfolding days_from
length-days_from zero day end h = omega arith
length-days_from (suc fuel) day end h = ground (arith, length-days_from fuel (day + 1) end)

abbrev pub is_after : Option ℕ → ℕ → Bool
is_after none x = true
is_after (some l) x = ltb l x

-- A day is fetched exactly if it is over, lies within the last `max_backfill_days` days (at least
-- one), and comes after the last stored day; so at most that many days are fetched.
pub contains-sales_days :
    (now : ℕ) (max_backfill_days : ℤ) (last : Option ℕ) (x : ℕ)
    → window_size max_backfill_days ≤ now
    → (contains (sales_days now max_backfill_days last) x
        ≡ ltb x now && (leb now (x + window_size max_backfill_days) && is_after last x))
      × (length (sales_days now max_backfill_days last) ≤ window_size max_backfill_days)
unfolding sales_days
contains-sales_days now max_backfill_days none x h =
    let n = window_size max_backfill_days in
    let start = start_day now max_backfill_days none in
    (
      ground (arith, contains-days_from n start (now - 1) x),
      omega (arith, length-days_from n start (now - 1)),
    )
contains-sales_days now max_backfill_days (some l) x h =
    let n = window_size max_backfill_days in
    let start = start_day now max_backfill_days (some l) in
    (
      ground (arith, contains-days_from n start (now - 1) x),
      omega (arith, length-days_from n start (now - 1)),
    )

days_from-nil : (fuel day end : ℕ) → end < day → days_from fuel day end ≡ []
unfolding days_from
days_from-nil zero day end h = refl
days_from-nil (suc fuel) day end h = ground arith

pub sales_days-nil :
    (now : ℕ) (max_backfill_days : ℤ) (last : ℕ)
    → 0 < now
    → now ≤ suc last
    → sales_days now max_backfill_days (some last) ≡ []
unfolding sales_days
sales_days-nil now max_backfill_days last positive recent =
    days_from-nil (window_size max_backfill_days) (start_day now max_backfill_days (some last))
      (now - 1) (omega arith)

contains-gaps_from :
    (captured : List ℕ) (fuel day end x : ℕ)
    → suc end ≤ day + fuel
    → contains (gaps_from captured fuel day end) x
      ≡ leb day x && (leb x end && not (contains captured x))
unfolding contains gaps_from
contains-gaps_from captured zero day end x h = ground arith
contains-gaps_from captured (suc fuel) day end x h = elim (Bool-cases (x == day)) [
  | inl same ↦
      let e : x ≡ day = ground arith in
      rw e (ground (arith, contains-gaps_from captured fuel (day + 1) end day))
  | inr other ↦ ground (arith, contains-gaps_from captured fuel (day + 1) end x)
]

-- Strictly ascending from `lo` on, and at most `end`.
abbrev pub Ascending : ℕ → ℕ → List ℕ → Type 0
Ascending lo end [] = Unit
Ascending lo end (x ∷ xs) = (lo ≤ x) × (x ≤ end) × Ascending (suc x) end xs

below-Ascending :
    (lo end x : ℕ) (ds : List ℕ) → Ascending lo end ds → x < lo → contains ds x ≡ false
unfolding contains
below-Ascending lo end x [] a h = refl
below-Ascending lo end x (d ∷ ds) a h =
    ground (arith, below-Ascending (suc d) end x ds a.2 (omega arith))

lower : (lo end : ℕ) (ds : List ℕ) → Ascending (suc lo) end ds → Ascending lo end ds
lower lo end [] a = tt
lower lo end (d ∷ ds) a = (omega arith, a.1, a.2)

length-gaps_from :
    (captured ds : List ℕ) (fuel day end : ℕ)
    → suc end ≤ day + fuel
    → Ascending day end ds
    → ((x : ℕ) → day ≤ x → contains captured x ≡ contains ds x)
    → length (gaps_from captured fuel day end) + length ds ≡ suc end - day
unfolding gaps_from contains
length-gaps_from captured [] zero day end h a same = omega arith
length-gaps_from captured (d ∷ ds) zero day end h a same = omega arith
length-gaps_from captured [] (suc fuel) day end h a same = ground (
  arith,
  same day (omega arith),
  length-gaps_from captured [] fuel (day + 1) end (omega arith) tt (λ x k. same x (omega arith)),
)
length-gaps_from captured (d ∷ ds) (suc fuel) day end h a same = elim (Bool-cases (d == day)) [
  | inl here ↦
      let e : d ≡ day = ground arith in
      ground (
        arith,
        same day (omega arith),
        length-gaps_from captured ds fuel (day + 1) end (omega arith)
            (subst (λ k. Ascending k end ds) (omega arith) a.2)
            (λ x k. ground (arith, same x (omega arith))),
      )
  | inr later ↦
      let after : Ascending (day + 1) end (d ∷ ds) = (ground arith, a.1, a.2) in
      ground (
        arith,
        same day (omega arith),
        below-Ascending (suc d) end day ds a.2 (omega arith),
        length-gaps_from captured (d ∷ ds) fuel (day + 1) end (omega arith) after
            (λ x k. same x (omega arith)),
      )
]

contains-to_set : (ds : List ℕ) (x : ℕ) → contains (to_set ds) x ≡ contains ds x
unfolding to_set contains
contains-to_set [] x = refl
contains-to_set (d ∷ ds) x = ground (arith, contains-add d x (to_set ds), contains-to_set ds x)

length-to_set : (lo end : ℕ) (ds : List ℕ) → Ascending lo end ds → length (to_set ds) ≡ length ds
unfolding to_set add
length-to_set lo end [] a = refl
length-to_set lo end (d ∷ ds) a = ground (
  arith,
  contains-to_set ds d,
  below-Ascending (suc d) end d ds a.2 (omega arith),
  length-to_set (suc d) end ds a.2,
)

last-Ascending :
    (d end : ℕ) (ds : List ℕ)
    → Ascending (suc d) end ds
    → d ≤ end
    → (d ≤ last_of d ds) × Ascending (suc d) (last_of d ds) ds
unfolding last_of
last-Ascending d end [] a h = (omega arith, tt)
last-Ascending d end (x ∷ xs) a h =
    let rest = last-Ascending x end xs a.2 a.1 in
    (omega (arith, a.0, rest.0), (a.0, rest.0, rest.1))

-- On the distinct dates that the query returns in order, and with room for a gap on every day, the
-- report is an exact census of the days from the first date to the last: captured days and gap days
-- add up to the length of the span, and the gaps listed are just the days in between without data.
pub sales_coverage-Census :
    (d end : ℕ) (ds : List ℕ) (max_gaps x : ℕ)
    → d ≤ end
    → Ascending (suc d) end ds
    → suc (last_of d ds) - d ≤ max_gaps
    → let report = sales_coverage (d ∷ ds) max_gaps in
      let to = last_of d ds in
      (report.captured_days ≡ length (d ∷ ds))
      × (report.captured_days + report.gap_days ≡ suc to - d)
      × (length report.gaps ≡ report.gap_days)
      × (contains report.gaps x ≡ leb d x && (leb x to && not (contains (d ∷ ds) x)))
unfolding sales_coverage
sales_coverage-Census d end ds max_gaps x h a room =
    let to = last_of d ds in
    let all = to_set (d ∷ ds) in
    let gaps = gaps_from all (suc to - d) d to in
    let bounded = last-Ascending d end ds a h in
    let whole : Ascending d to (d ∷ ds) = (omega arith, bounded.0, bounded.1) in
    let size : length all ≡ length (d ∷ ds) = length-to_set d to (d ∷ ds) whole in
    let total : length gaps + length (d ∷ ds) ≡ suc to - d =
      length-gaps_from all (d ∷ ds) (suc to - d) d to (omega arith) whole
        (λ x k. contains-to_set (d ∷ ds) x) in
    let listed : take max_gaps gaps ≡ gaps =
      take_of_length-le max_gaps gaps (omega (arith, total)) in
    (
      size,
      omega arith,
      ap length listed,
      rw listed (
          contains-gaps_from all (suc to - d) d to x (omega (arith, bounded.0))
          ∙ ap (λ b. leb d x && (leb x to && not b)) (contains-to_set (d ∷ ds) x)),
    )
