-- ===== src/Aggregate/Analytics/Aging.antt =====
-- Receivables aging of chic/aggregate/analytics.py. A moment is a number of seconds, and
-- `parse_time` is the program's call of `datetime.strptime`.
use chic_mcp.Prelude.{
  ℕ, suc, zero, ◌+◌, Bool, true, false, ◌&&◌, Option, none, some, List, [], ◌∷◌, ◌++◌, take, String,
  length, ltb, if◌then◌else◌,
}
use chic_mcp.Prelude.Int.{ℤ, pos, pos_part, ◌+ℤ◌, ◌-ℤ◌, leb_ℤ, ltb_ℤ}
use chic_mcp.Moysklad.Models.Papers.{Document}
use chic_mcp.Aggregate.Money.{Money, Steps, minor_to_major}
use chic_mcp.Aggregate.Models.Findings.{AgingBucket, AgingItem, Aging}
use chic_mcp.Aggregate.Envelope.{descending, truncate}
use chic_mcp.Aggregate.Analytics.Segments.{days_between}
pub mod Balance

-- `_bucket_index`
unfoldable pub bucket_index : ℤ → ℕ
bucket_index days_overdue =
    if leb_ℤ days_overdue (pos 0)
    then 0
    else if leb_ℤ days_overdue (pos 30)
    then 1
    else if leb_ℤ days_overdue (pos 60)
    then 2
    else if leb_ℤ days_overdue (pos 90)
    then 3
    else 4

empty_bucket : String → AgingBucket
empty_bucket label = record { label = label; count = 0; amount = pos 0 }

-- The buckets of `_BUCKET_LABELS`
unfoldable pub empty_buckets : List AgingBucket
unfolding empty_bucket
empty_buckets =
    empty_bucket "current"
    ∷ empty_bucket "1-30"
    ∷ empty_bucket "31-60"
    ∷ empty_bucket "61-90"
    ∷ empty_bucket "90+"
    ∷ []

-- `buckets[bi].count += 1` and `buckets[bi].amount += outstanding`
unfoldable pub bump : ℕ → Money → List AgingBucket → List AgingBucket
bump bi outstanding [] = []
bump zero outstanding (b ∷ buckets) =
    record { label = b.label; count = suc b.count; amount = b.amount +ℤ outstanding } ∷ buckets
bump (suc bi) outstanding (b ∷ buckets) = b ∷ bump bi outstanding buckets

-- The variables of the loop
pub record Ledger : Type 0 where
  pub buckets : List AgingBucket
  pub items : List AgingItem
  pub total_outstanding : Money
  pub total_overdue : Money

agent_name : Document Steps → String
agent_name d = elim d.agent as (λ x. String) [ none ↦ "" | some a ↦ a.name ]

module _ (one : ℕ) (parse_time : String → Option ℕ) (now : ℕ) where
  unfoldable pub overdue_days : String → ℤ
  overdue_days planned = elim (parse_time planned) as (λ x. ℤ) [
    | none ↦ pos 0
    | some due ↦ if ltb due now then days_between now due else pos 0
  ]

  unfoldable pub outstanding_of : Document Steps → Money
  outstanding_of d = minor_to_major one (d.sum -ℤ d.payed_sum)

  -- One turn of the loop
  unfoldable pub enter : Ledger → Document Steps → Ledger
  unfolding agent_name bucket_index bump
  enter l d =
      let outstanding = outstanding_of d in
      let days = overdue_days d.payment_planned_moment in
      if leb_ℤ outstanding (pos 0) then l else record {
        buckets = bump (bucket_index days) outstanding l.buckets;
        items =
            l.items
            ++ record {
              document = d.name;
              counterparty = agent_name d;
              due_date = d.payment_planned_moment;
              outstanding = outstanding;
              days_overdue = days;
            }
              ∷ [];
        total_outstanding = l.total_outstanding +ℤ outstanding;
        total_overdue =
            if ltb_ℤ (pos 0) days then l.total_overdue +ℤ outstanding else l.total_overdue;
      }

  unfoldable pub enter_all : Ledger → List (Document Steps) → Ledger
  enter_all l [] = l
  enter_all l (d ∷ docs) = enter_all (enter l d) docs

  empty_ledger : Ledger
  empty_ledger = record {
    buckets = empty_buckets;
    items = [];
    total_outstanding = pos 0;
    total_overdue = pos 0;
  }

  -- `receivables_aging`
  unfoldable pub receivables_aging : List (Document Steps) → ℤ → Aging
  unfolding empty_ledger
  receivables_aging docs limit =
      let l = enter_all empty_ledger docs in
      let cut = truncate (descending (λ x. x.days_overdue) l.items) limit in
      record {
        total_outstanding = l.total_outstanding;
        total_overdue = l.total_overdue;
        buckets = l.buckets;
        item_count = length l.items;
        items_truncated = cut.2;
        items = cut.0;
      }
