-- ===== src/Aggregate/Analytics/Segments/Recency.antt =====
-- The recency labels that a segment report counts.
use chic_mcp.Prelude.{
  ℕ, ◌≡◌, refl, Bool, false, ◌&&◌, Option, List, [], ◌∷◌, ◌++◌, map, count, String, ◌==◌, string_eq,
  if◌then◌else◌, arith,
}
use chic_mcp.Prelude.Int.{ℤ, pos, leb_ℤ, ltb_ℤ}
use chic_mcp.Prelude.Sets.{occurrences, occurrences-append}
use chic_mcp.Moysklad.Models.Reports.{CounterpartyRow}
use chic_mcp.Aggregate.Money.{Money, Steps}
use chic_mcp.Aggregate.Models.Lines.{CounterpartyMetric}
use chic_mcp.Aggregate.Models.Findings.{CounterpartySegment}
use chic_mcp.Aggregate.Envelope.{report}
use chic_mcp.Aggregate.Report.Rows.{counterparty_metrics}
use chic_mcp.Aggregate.Analytics.Segments.{
  SegmentParams, or_default, when_label, recency, days_since, labels, segment,
  segment_counterparties, tally, segment_report,
}

-- The last purchase is at least `sleeping_days` old; 0 stands for 90.
abbrev pub is_sleeping : SegmentParams → CounterpartySegment → Bool
is_sleeping p s =
    leb_ℤ (pos 0) s.days_since_last_purchase
    && leb_ℤ (or_default p.sleeping_days (pos 90)) s.days_since_last_purchase

-- It is at least `at_risk_days` old, where 0 stands for 45, and the customer is not sleeping.
abbrev pub is_at_risk : SegmentParams → CounterpartySegment → Bool
is_at_risk p s =
    leb_ℤ (pos 0) s.days_since_last_purchase
    && (leb_ℤ (or_default p.at_risk_days (pos 45)) s.days_since_last_purchase
        && ltb_ℤ s.days_since_last_purchase (or_default p.sleeping_days (pos 90)))

occurrences-other :
    (x label : String) (b : Bool) → label == x ≡ false → occurrences x (when_label b label) ≡ 0
unfolding occurrences when_label
occurrences-other x label b h = ground arith

-- Of the labels of a customer only the recency label can be one that the others are not.
occurrences-middle :
    (x : String) (v r l d n : List String)
    → occurrences x v ≡ 0
    → occurrences x l ≡ 0
    → occurrences x d ≡ 0
    → occurrences x n ≡ 0
    → occurrences x (v ++ (r ++ (l ++ (d ++ n)))) ≡ occurrences x r
occurrences-middle x v r l d n hv hl hd hn = omega (
  arith,
  occurrences-append x v (r ++ (l ++ (d ++ n))),
  occurrences-append x r (l ++ (d ++ n)),
  occurrences-append x l (d ++ n),
  occurrences-append x d n,
)

module _ (one : ℕ) (parse_time : String → Option ℕ) (p : SegmentParams) (t : Option Money) where
  -- How often a label other than those four is among a customer's labels
  occurrences-labels :
      (x : String) (m : CounterpartyMetric)
      → "vip" == x ≡ false
      → "low_check" == x ≡ false
      → "debtor" == x ≡ false
      → "negative_margin" == x ≡ false
      → occurrences x (labels one parse_time p t m)
        ≡ occurrences x (recency p (days_since one parse_time p.now m.last_demand))
  unfolding labels
  occurrences-labels x m hv hl hd hn =
      occurrences-middle x _ _ _ _ _ (occurrences-other x "vip" _ hv)
        (occurrences-other x "low_check" _ hl) (occurrences-other x "debtor" _ hd)
        (occurrences-other x "negative_margin" _ hn)

  sleeping-segment :
      (m : CounterpartyMetric)
      → occurrences "sleeping" (segment one parse_time p t m).segments
        ≡ (if is_sleeping p (segment one parse_time p t m) then 1 else 0)
  unfolding segment recency occurrences
  sleeping-segment m = ground (arith, occurrences-labels "sleeping" m refl refl refl refl)

  at_risk-segment :
      (m : CounterpartyMetric)
      → occurrences "at_risk" (segment one parse_time p t m).segments
        ≡ (if is_at_risk p (segment one parse_time p t m) then 1 else 0)
  unfolding segment recency occurrences
  at_risk-segment m = ground (arith, occurrences-labels "at_risk" m refl refl refl refl)

-- A tally of ones is a count.
tally-count {ℓ} :
    {A : Type ℓ} (x : String) (is : CounterpartySegment → Bool) (f : A → CounterpartySegment)
    → ((a : A) → occurrences x (f a).segments ≡ (if is (f a) then 1 else 0))
    → (xs : List A) → tally x (map f xs) ≡ count is (map f xs)
unfolding tally
tally-count x is f h [] = refl
tally-count x is f h (a ∷ xs) = ground (arith, h a, tally-count x is f h xs)

-- In a segment report the counter of sleeping customers is the number of those whose last purchase
-- is at least sleeping_days old (0 stands for 90), and that of customers at risk the number of
-- those with one at least at_risk_days old (0 stands for 45) who do not sleep.
pub segment_report-Recency :
    (one : ℕ) (parse_time : String → Option ℕ) (rows : List (CounterpartyRow Steps))
    (p : SegmentParams) (limit : ℤ)
    → ((segment_report (segment_counterparties one parse_time rows p) limit).totals.sleeping
        ≡ count (is_sleeping p) (segment_counterparties one parse_time rows p))
      × ((segment_report (segment_counterparties one parse_time rows p) limit).totals.at_risk
          ≡ count (is_at_risk p) (segment_counterparties one parse_time rows p))
unfolding segment_report segment_counterparties report
segment_report-Recency one parse_time rows p limit = (
  tally-count "sleeping" (is_sleeping p) _ (sleeping-segment one parse_time p _)
      (counterparty_metrics one rows),
  tally-count "at_risk" (is_at_risk p) _ (at_risk-segment one parse_time p _)
      (counterparty_metrics one rows),
)
