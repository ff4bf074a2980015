-- ===== src/Aggregate/Document.antt =====
-- Document summaries and details of chic/aggregate/document.py.
pub mod Totals
mod Tests
use chic_mcp.Prelude.{
  ℕ, ◌*◌, Bool, true, false, Option, none, some, List, [], ◌∷◌, map, String, ◌==◌, string_eq,
  if◌then◌else◌,
}
use chic_mcp.Prelude.Int.{ℤ, pos, ◌-ℤ◌, ◌*ℤ◌, sum_ℤ}
use chic_mcp.Prelude.Dict.{Dict, put}
use chic_mcp.Prelude.Json.{Json, null, bool, num, str, arr, obj, get as get_field, or_else}
use chic_mcp.Moysklad.Models.Entities.{NamedRef, Currency}
use chic_mcp.Moysklad.Models.Papers.{Rate, Position, Attribute, Document}
use chic_mcp.Aggregate.Money.{Money, Steps, minor_to_major, money_round}
use chic_mcp.Aggregate.Models.Papers.{DocumentSummary, PositionRow, DocumentDetail, DocumentTotals}
use chic_mcp.Aggregate.Envelope.{Report, report}

-- `_attr_value`
unfoldable pub attr_value : Json → Json
attr_value (obj fs) = or_else (or_else (get_field fs "name") (get_field fs "value")) (str "")
attr_value null = null
attr_value (bool b) = bool b
attr_value (num n) = num n
attr_value (str s) = str s
attr_value (arr vs) = arr vs

-- The comprehension of `_attributes`
add_attributes : Dict String Json → List Attribute → Dict String Json
add_attributes out [] = out
add_attributes out (a ∷ rest) =
    add_attributes (if a.name == "" then out else put out a.name (attr_value a.value)) rest

-- `x.name if x is not None else ""`
name_of : Option NamedRef → String
name_of none = ""
name_of (some x) = x.name

-- The currency of a document's rate, if there are both
currency_of : {N : Type 0} → Option (Rate N) → String
currency_of none = ""
currency_of (some rate) = elim rate.currency as (λ x. String) [ none ↦ "" | some c ↦ c.iso_code ]

module _ (one : ℕ) where
  -- `document_summary_of`
  unfoldable pub document_summary_of : Document Steps → DocumentSummary
  unfolding name_of currency_of
  document_summary_of d = record {
    id = d.id;
    name = d.name;
    moment = d.moment;
    sum = minor_to_major one d.sum;
    paid = minor_to_major one d.payed_sum;
    counterparty = name_of d.agent;
    state = name_of d.state;
    store = name_of d.store;
    channel = name_of d.sales_channel;
    currency = currency_of d.rate;
    applicable = d.applicable;
  }

  -- `document_summaries`
  unfoldable pub document_summaries : List (Document Steps) → List DocumentSummary
  document_summaries docs = map document_summary_of docs

  -- `document_report`
  unfoldable pub document_report : List (Document Steps) → ℤ → Report DocumentSummary DocumentTotals
  document_report docs limit =
      let rows = document_summaries docs in
      let totals : DocumentTotals = record {
        sum = sum_ℤ (λ r. r.sum) rows;
        paid = sum_ℤ (λ r. r.paid) rows;
      } in
      report totals rows limit

  -- A round of the loop of `document_detail_of`: the product of a price in hundredths, a quantity
  -- and the share that the discount leaves is rounded once.
  unfoldable pub position_row : Position Steps → PositionRow
  position_row p =
      let price = minor_to_major one p.price in
      record {
        name = p.assortment.name;
        code = p.assortment.code;
        quantity = p.quantity;
        price = price;
        discount = p.discount;
        vat = p.vat;
        total =
            money_round (one * (100 * one))
              (price *ℤ p.quantity *ℤ (pos (100 * one) -ℤ p.discount));
      }

  position_rows : Option (List (Position Steps)) → List PositionRow
  position_rows none = []
  position_rows (some rows) = map position_row rows

  -- `document_detail_of`
  unfoldable pub document_detail_of : Document Steps → DocumentDetail
  unfolding add_attributes position_rows
  document_detail_of d = record {
    summary = document_summary_of d;
    description = d.description;
    vat_sum = minor_to_major one d.vat_sum;
    payment_due_date = d.payment_planned_moment;
    positions = position_rows d.positions;
    attributes = add_attributes [] d.attributes;
  }
