-- ===== src/Aggregate/Analytics/Segments.antt =====
-- Counterparty segmentation of chic/aggregate/analytics.py. A moment is a number of seconds, and
-- `parse_time` is the program's call of `datetime.strptime`.
pub mod Recency
use chic_mcp.Prelude.{
  ℕ, ◌-◌, ◌*◌, ◌/◌, min, Bool, false, ◌&&◌, Option, none, some, List, [], ◌∷◌, ◌++◌, map, sum_of,
  String, length, get_elem?, ◌==◌, nat_eq, string_eq, if◌then◌else◌,
}
use chic_mcp.Prelude.Int.{ℤ, pos, negsuc, abs, ◌-ℤ◌, ◌*ℤ◌, leb_ℤ, ltb_ℤ}
use chic_mcp.Prelude.Sets.{occurrences}
use chic_mcp.Moysklad.Models.Reports.{CounterpartyRow}
use chic_mcp.Aggregate.Money.{Money, Steps, whole}
use chic_mcp.Aggregate.Models.Lines.{CounterpartyMetric}
use chic_mcp.Aggregate.Models.Findings.{CounterpartySegment, SegmentTotals}
use chic_mcp.Aggregate.Envelope.{Report, report, descending}
use chic_mcp.Aggregate.Report.Rows.{counterparty_metrics}

pub record SegmentParams : Type 0 where
  pub now : ℕ
  pub sleeping_days : ℤ
  pub at_risk_days : ℤ
  pub vip_top_percent : ℕ
  pub low_check_threshold : Steps

-- `a or b` on an int
unfoldable pub or_default : ℤ → ℤ → ℤ
or_default v d = if abs v == 0 then d else v

-- `days_between`: seconds to whole days, toward zero.
unfoldable pub days_between : ℕ → ℕ → ℤ
days_between now earlier = whole 86400 (pos now -ℤ pos earlier)

-- `vip_threshold`; `none` is infinity.
unfoldable pub vip_threshold : ℕ → ℕ → List Money → Option Money
vip_threshold one vip_pct revenues =
    let pct = if vip_pct == 0 then one / 5 else vip_pct in
    get_elem? revenues (min (length revenues * pct / one) (length revenues - 1))

reaches : Option Money → Money → Bool
reaches none revenue = false
reaches (some t) revenue = leb_ℤ t revenue

unfoldable pub when_label : Bool → String → List String
when_label b label = if b then label ∷ [] else []

unfoldable pub recency : SegmentParams → ℤ → List String
unfolding or_default
recency p days =
    if ltb_ℤ days (pos 0)
    then []
    else if leb_ℤ (or_default p.sleeping_days (pos 90)) days
    then "sleeping" ∷ []
    else if leb_ℤ (or_default p.at_risk_days (pos 45)) days
    then "at_risk" ∷ []
    else []

module _ (one : ℕ) (parse_time : String → Option ℕ) where
  -- `-1` for a customer without a purchase
  unfoldable pub days_since : ℕ → String → ℤ
  days_since now last_demand = elim (parse_time last_demand) as (λ x. ℤ) [
    | none ↦ negsuc 0
    | some last ↦ days_between now last
  ]

  -- The labels of one customer, in the order in which they are appended
  unfoldable pub labels : SegmentParams → Option Money → CounterpartyMetric → List String
  unfolding recency when_label reaches
  labels p threshold m =
      let days = days_since p.now m.last_demand in
      when_label (ltb_ℤ (pos 0) m.revenue && reaches threshold m.revenue) "vip"
      ++ (recency p days
          ++ (when_label
                (ltb_ℤ (pos 0) p.low_check_threshold
                  && (ltb_ℤ (pos 0) m.demands_count
                      && ltb_ℤ (m.avg_receipt *ℤ pos one) (p.low_check_threshold *ℤ pos 100)))
                "low_check"
              ++ (when_label (ltb_ℤ (pos 0) m.balance) "debtor"
                  ++ when_label (ltb_ℤ (pos 0) m.revenue && ltb_ℤ m.profit (pos 0))
                      "negative_margin")))

  unfoldable pub segment : SegmentParams → Option Money → CounterpartyMetric → CounterpartySegment
  segment p threshold m = record {
    name = m.name;
    segments = labels p threshold m;
    revenue = m.revenue;
    avg_receipt = m.avg_receipt;
    profit = m.profit;
    balance = m.balance;
    days_since_last_purchase = days_since p.now m.last_demand;
  }

  unfoldable pub segment_counterparties :
      List (CounterpartyRow Steps) → SegmentParams → List CounterpartySegment
  unfolding segment
  segment_counterparties rows p =
      let metrics = counterparty_metrics one rows in
      let revenues = map (λ m. m.revenue) (descending (λ m. m.revenue) metrics) in
      map (segment p (vip_threshold one p.vip_top_percent revenues)) metrics

-- `tallies[label]` after the two loops
unfoldable pub tally : String → List CounterpartySegment → ℕ
tally label segs = sum_of (λ s. occurrences label s.segments) segs

unfoldable pub segment_report :
    List CounterpartySegment → ℤ → Report CounterpartySegment SegmentTotals
segment_report segs limit =
    let totals : SegmentTotals = record {
      count = length segs;
      vip = tally "vip" segs;
      sleeping = tally "sleeping" segs;
      at_risk = tally "at_risk" segs;
      low_check = tally "low_check" segs;
      debtor = tally "debtor" segs;
      negative_margin = tally "negative_margin" segs;
    } in
    report totals (descending (λ s. s.revenue) segs) limit
