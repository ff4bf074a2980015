-- ===== src/Cache/Client/Calls/Keys.antt =====
-- No two calls share the method name and the parameters, which is what a cache key is made from.
use chic_mcp.Prelude.{
  ◌≡◌, refl, Option, none, some, [], ◌∷◌, String, ◌==◌, string_eq, if◌then◌else◌,
}
use chic_mcp.Cache.Client.Calls.{
  Ttls, Param, Params, one, many, Call, request, list_products_call, search_counterparties_call,
  account_currency_call, list_entity_refs_call, search_assortment_call, list_states_call,
  get_dashboard_call, profit_by_product_call, profit_by_entity_call, get_turnover_call,
  get_stock_call, get_counterparty_report_call, get_money_series_call, get_stock_by_store_call,
  get_sales_series_call, get_audit_call, search_documents_call, get_document_call,
}

-- Reading a call back from its parameters, method by method.
read_list_products : Params → Option Call
read_list_products (one (Param.list_options opts)) = some (list_products_call opts)
read_list_products _ = none

read_search_counterparties : Params → Option Call
read_search_counterparties (one (Param.list_options opts)) = some (search_counterparties_call opts)
read_search_counterparties _ = none

read_account_currency : Params → Option Call
read_account_currency (one Param.nothing) = some account_currency_call
read_account_currency _ = none

read_list_entity_refs : Params → Option Call
read_list_entity_refs (many (Param.text entity ∷ Param.list_options opts ∷ [])) =
    some (list_entity_refs_call entity opts)
read_list_entity_refs _ = none

read_search_assortment : Params → Option Call
read_search_assortment (one (Param.list_options opts)) = some (search_assortment_call opts)
read_search_assortment _ = none

read_list_states : Params → Option Call
read_list_states (one (Param.text doc_type)) = some (list_states_call doc_type)
read_list_states _ = none

read_get_dashboard : Params → Option Call
read_get_dashboard (one (Param.text period)) = some (get_dashboard_call period)
read_get_dashboard _ = none

read_profit_by_product : Params → Option Call
read_profit_by_product (many (Param.flag variant ∷ Param.profit_options opts ∷ [])) =
    some (profit_by_product_call variant opts)
read_profit_by_product _ = none

read_profit_by_entity : Params → Option Call
read_profit_by_entity (many (Param.text dimension ∷ Param.profit_options opts ∷ [])) =
    some (profit_by_entity_call dimension opts)
read_profit_by_entity _ = none

read_get_turnover : Params → Option Call
read_get_turnover (one (Param.profit_options opts)) = some (get_turnover_call opts)
read_get_turnover _ = none

read_get_stock : Params → Option Call
read_get_stock (one (Param.stock_options opts)) = some (get_stock_call opts)
read_get_stock _ = none

read_get_counterparty_report : Params → Option Call
read_get_counterparty_report (many (Param.texts filters ∷ Param.whole limit ∷ [])) =
    some (get_counterparty_report_call filters limit)
read_get_counterparty_report _ = none

read_get_money_series : Params → Option Call
read_get_money_series
      (many (Param.text date_from ∷ Param.text date_to ∷ Param.text interval ∷ [])) =
    some (get_money_series_call date_from date_to interval)
read_get_money_series _ = none

read_get_stock_by_store : Params → Option Call
read_get_stock_by_store (one (Param.stock_options opts)) = some (get_stock_by_store_call opts)
read_get_stock_by_store _ = none

read_get_sales_series : Params → Option Call
read_get_sales_series
      (many (
        Param.text kind
        ∷ Param.text date_from
        ∷ Param.text date_to
        ∷ Param.text interval
        ∷ Param.text store_id
        ∷ Param.text organization_id
        ∷ Param.text project_id
        ∷ [])) =
    some (get_sales_series_call kind date_from date_to interval store_id organization_id project_id)
read_get_sales_series _ = none

read_get_audit : Params → Option Call
read_get_audit (many (Param.texts filters ∷ Param.whole limit ∷ [])) =
    some (get_audit_call filters limit)
read_get_audit _ = none

read_search_documents : Params → Option Call
read_search_documents (many (Param.text doc_type ∷ Param.document_query query ∷ [])) =
    some (search_documents_call doc_type query)
read_search_documents _ = none

read_get_document : Params → Option Call
read_get_document (many (Param.text doc_type ∷ Param.text doc_id ∷ Param.texts expand ∷ [])) =
    some (get_document_call doc_type doc_id expand)
read_get_document _ = none

read_call : String → Params → Option Call
unfolding read_list_products read_search_counterparties read_account_currency read_list_entity_refs
    read_search_assortment read_list_states read_get_dashboard read_profit_by_product
    read_profit_by_entity read_get_turnover read_get_stock read_get_counterparty_report
    read_get_money_series read_get_stock_by_store read_get_sales_series read_get_audit
    read_search_documents read_get_document
read_call method params =
    if method == "ListProducts"
    then read_list_products params
    else if method == "SearchCounterparties"
    then read_search_counterparties params
    else if method == "AccountCurrency"
    then read_account_currency params
    else if method == "ListEntityRefs"
    then read_list_entity_refs params
    else if method == "SearchAssortment"
    then read_search_assortment params
    else if method == "ListStates"
    then read_list_states params
    else if method == "GetDashboard"
    then read_get_dashboard params
    else if method == "ProfitByProduct"
    then read_profit_by_product params
    else if method == "ProfitByEntity"
    then read_profit_by_entity params
    else if method == "GetTurnover"
    then read_get_turnover params
    else if method == "GetStock"
    then read_get_stock params
    else if method == "GetCounterpartyReport"
    then read_get_counterparty_report params
    else if method == "GetMoneySeries"
    then read_get_money_series params
    else if method == "GetStockByStore"
    then read_get_stock_by_store params
    else if method == "GetSalesSeries"
    then read_get_sales_series params
    else if method == "GetAudit"
    then read_get_audit params
    else if method == "SearchDocuments"
    then read_search_documents params
    else if method == "GetDocument"
    then read_get_document params
    else none

read_call-request :
    (ttls : Ttls) (c : Call) → read_call (request ttls c).method (request ttls c).params ≡ some c
unfolding read_call request
read_call-request ttls (list_products_call opts) = refl
read_call-request ttls (search_counterparties_call opts) = refl
read_call-request ttls account_currency_call = refl
read_call-request ttls (list_entity_refs_call entity opts) = refl
read_call-request ttls (search_assortment_call opts) = refl
read_call-request ttls (list_states_call doc_type) = refl
read_call-request ttls (get_dashboard_call period) = refl
read_call-request ttls (profit_by_product_call variant opts) = refl
read_call-request ttls (profit_by_entity_call dimension opts) = refl
read_call-request ttls (get_turnover_call opts) = refl
read_call-request ttls (get_stock_call opts) = refl
read_call-request ttls (get_counterparty_report_call filters limit) = refl
read_call-request ttls (get_money_series_call date_from date_to interval) = refl
read_call-request ttls (get_stock_by_store_call opts) = refl
read_call-request ttls
      (get_sales_series_call kind date_from date_to interval store_id organization_id project_id) =
    refl
read_call-request ttls (get_audit_call filters limit) = refl
read_call-request ttls (search_documents_call doc_type query) = refl
read_call-request ttls (get_document_call doc_type doc_id expand) = refl

-- Two calls whose keys are made from the same method name and parameters are the same call, with all
-- its arguments.
pub request-injective :
    (ttls : Ttls) (c d : Call)
    → (request ttls c).method ≡ (request ttls d).method
    → (request ttls c).params ≡ (request ttls d).params
    → c ≡ d
request-injective ttls c d m p = cc (read_call-request ttls c, read_call-request ttls d, m, p)
