-- ===== src/Aggregate/Document/Totals.antt =====
-- The amounts of documents and of their positions.
use native.Mathlib.Nat.{div-mul-le_self, le-div_iff_mul-le, mul-le-mul_left}
use chic_mcp.Prelude.{ℕ, zero, suc, ◌+◌, ◌-◌, ◌*◌, ◌≤◌, ◌≡◌, List, arith}
use chic_mcp.Prelude.Int.{ℤ, pos, pos_mul, pos_sub, sum_ℤ, sum_ℤ-map}
use chic_mcp.Moysklad.Models.Papers.{Position, Document}
use chic_mcp.Aggregate.Money.{Steps, half_up, minor_to_major, money_round}
use chic_mcp.Aggregate.Money.Rounding.{round_pos}
use chic_mcp.Aggregate.Envelope.{report}
use chic_mcp.Aggregate.Document.{
  document_summary_of, document_summaries, document_report, position_row,
}

-- A document report totals the sums and payments of all documents, whatever the limit.
pub document_report-Totals :
    (one : ℕ) (limit : ℤ) (docs : List (Document Steps))
    → ((document_report one docs limit).totals.sum ≡ sum_ℤ (λ d. minor_to_major one d.sum) docs)
      × ((document_report one docs limit).totals.paid
          ≡ sum_ℤ (λ d. minor_to_major one d.payed_sum) docs)
unfolding document_report document_summaries document_summary_of report
document_report-Totals one limit docs = (
  sum_ℤ-map (λ r. r.sum) (document_summary_of one) docs,
  sum_ℤ-map (λ r. r.paid) (document_summary_of one) docs,
)

half_up-le : (a b d : ℕ) → a ≤ b → half_up a d ≤ half_up b d
unfolding half_up
half_up-le a b zero h = omega arith
half_up-le a b (suc d) h =
    (le-div_iff_mul-le (omega arith)).1 (omega (arith, div-mul-le_self (2 * a + suc d) (2 * suc d)))

-- With a price, a quantity and a discount of 0 to 100 percent, a position's total is at least 0 and
-- at most its total without a discount.
pub position_row-Between :
    (one price quantity discount : ℕ) (p : Position Steps)
    → p.price ≡ pos price
    → p.quantity ≡ pos quantity
    → p.discount ≡ pos discount
    → discount ≤ 100 * one
    → (total : ℕ) × ((position_row one p).total ≡ pos total)
      × (total ≤ half_up (half_up price one * quantity * (100 * one)) (one * (100 * one)))
unfolding position_row minor_to_major money_round
position_row-Between one price quantity discount p hp hq hd le = (
  half_up (half_up price one * quantity * (100 * one - discount)) (one * (100 * one)),
  rw
      (
        hp,
        hq,
        hd,
        round_pos price one,
        pos_mul (half_up price one) quantity,
        pos_sub (100 * one) discount le,
        pos_mul (half_up price one * quantity) (100 * one - discount),
      )
      (round_pos (half_up price one * quantity * (100 * one - discount)) (one * (100 * one))),
  half_up-le (half_up price one * quantity * (100 * one - discount))
      (half_up price one * quantity * (100 * one)) (one * (100 * one))
      (mul-le-mul_left (half_up price one * quantity) (omega arith)),
)
