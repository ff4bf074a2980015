-- ===== src/Moysklad/Documents.antt =====
-- chic/moysklad/documents.py: the document types, and which of them carry a currency.
use chic_mcp.Prelude.{
  ◌≡◌, refl, sym, Bool, true, false, Option, none, some, List, [], ◌∷◌, String, map, string_eq,
  if◌then◌else◌, arith,
}
use chic_mcp.Prelude.Sets.{contains}
use chic_mcp.Prelude.Dict
use chic_mcp.Prelude.Dict.{Dict}

-- `DocumentType`
pub data DocumentType : Type 0 where
  demand customer_order supply purchase_order internal_order invoice_out invoice_in sales_return
        purchase_return payment_in payment_out cash_in cash_out commission_report_in
        commission_report_out facture_out facture_in counterparty_adjustment prepayment
        prepayment_return retail_demand retail_sales_return retail_shift retail_drawer_cash_in
        retail_drawer_cash_out move inventory loss enter processing :
      DocumentType

-- `t.value`
unfoldable pub value : DocumentType → String
value demand = "demand"
value customer_order = "customerorder"
value supply = "supply"
value purchase_order = "purchaseorder"
value internal_order = "internalorder"
value invoice_out = "invoiceout"
value invoice_in = "invoicein"
value sales_return = "salesreturn"
value purchase_return = "purchasereturn"
value payment_in = "paymentin"
value payment_out = "paymentout"
value cash_in = "cashin"
value cash_out = "cashout"
value commission_report_in = "commissionreportin"
value commission_report_out = "commissionreportout"
value facture_out = "factureout"
value facture_in = "facturein"
value counterparty_adjustment = "counterpartyadjustment"
value prepayment = "prepayment"
value prepayment_return = "prepaymentreturn"
value retail_demand = "retaildemand"
value retail_sales_return = "retailsalesreturn"
value retail_shift = "retailshift"
value retail_drawer_cash_in = "retaildrawercashin"
value retail_drawer_cash_out = "retaildrawercashout"
value move = "move"
value inventory = "inventory"
value loss = "loss"
value enter = "enter"
value processing = "processing"

-- `_DOCUMENT_TYPES`, in display order.
unfoldable pub document_types : List (DocumentType × Bool)
document_types =
    (demand, true)
    ∷ (customer_order, true)
    ∷ (supply, true)
    ∷ (purchase_order, true)
    ∷ (internal_order, false)
    ∷ (invoice_out, true)
    ∷ (invoice_in, true)
    ∷ (sales_return, true)
    ∷ (purchase_return, true)
    ∷ (payment_in, true)
    ∷ (payment_out, true)
    ∷ (cash_in, true)
    ∷ (cash_out, true)
    ∷ (commission_report_in, true)
    ∷ (commission_report_out, true)
    ∷ (facture_out, false)
    ∷ (facture_in, false)
    ∷ (counterparty_adjustment, true)
    ∷ (prepayment, true)
    ∷ (prepayment_return, true)
    ∷ (retail_demand, true)
    ∷ (retail_sales_return, true)
    ∷ (retail_shift, true)
    ∷ (retail_drawer_cash_in, true)
    ∷ (retail_drawer_cash_out, true)
    ∷ (move, false)
    ∷ (inventory, false)
    ∷ (loss, false)
    ∷ (enter, false)
    ∷ (processing, false)
    ∷ []

-- `{t.value: has for t, has in _DOCUMENT_TYPES}`
build : List (DocumentType × Bool) → Dict String Bool → Dict String Bool
build [] m = m
build ((t, has) ∷ ts) m = build ts (Dict.put m (value t) has)

unfoldable pub currency_table : Dict String Bool
unfolding build value document_types Dict.put
currency_table = build document_types []

-- `has_currency`
unfoldable pub has_currency : String → Bool
unfolding currency_table Dict.get
has_currency doc_type = elim (Dict.get currency_table doc_type) [ some has ↦ has | none ↦ false ]

-- `valid_document_type`
unfoldable pub valid_document_type : String → Bool
unfolding currency_table Dict.get
valid_document_type s = elim (Dict.get currency_table s) [ some has ↦ true | none ↦ false ]

-- `document_type_strings`
unfoldable pub document_type_strings : List String
unfolding document_types value
document_type_strings = map (λ e. value e.0) document_types

-- A type that carries no currency: an internal order, an issued or received facture, or a warehouse
-- operation.
abbrev pub is_base_only : DocumentType → Bool
is_base_only internal_order = true
is_base_only facture_out = true
is_base_only facture_in = true
is_base_only move = true
is_base_only inventory = true
is_base_only loss = true
is_base_only enter = true
is_base_only processing = true
is_base_only _ = false

-- Every document type is valid under its text, and carries a currency unless it is one of the eight.
pub has_currency-value :
    (t : DocumentType)
    → (valid_document_type (value t) ≡ true)
      × (has_currency (value t) ≡ (if is_base_only t then false else true))
unfolding valid_document_type has_currency
has_currency-value demand = (refl, refl)
has_currency-value _ = (refl, refl)

contains-get :
    (m : Dict String Bool) (s : String)
    → contains (map (λ e. e.0) m) s ≡ elim (Dict.get m s) [ some has ↦ true | none ↦ false ]
unfolding contains Dict.get
contains-get [] s = refl
contains-get ((k, has) ∷ m) s = ground (arith, contains-get m s)

no_flag :
    (o : Option Bool)
    → (elim o as (λ x. Bool) [ some has ↦ has | none ↦ false ]) ≡ (
        if (elim o as (λ x. Bool) [ some has ↦ true | none ↦ false ])
        then (elim o as (λ x. Bool) [ some has ↦ has | none ↦ false ])
        else false)
no_flag none = refl
no_flag (some b) = refl

-- A text is a valid document type exactly when it is among the listed ones, and any other carries
-- no currency.
pub valid_document_type-contains :
    (s : String)
    → (valid_document_type s ≡ contains document_type_strings s)
      × (has_currency s ≡ (if valid_document_type s then has_currency s else false))
unfolding valid_document_type has_currency document_type_strings
valid_document_type-contains s =
    (sym (contains-get currency_table s), no_flag (Dict.get currency_table s))
