-- ===== src/Moysklad/Client/Endpoints.antt =====
-- The endpoints of chic/moysklad/client.py: what each method sends. `base_url` is the client's, `quote`
-- the percent-encoding of a path segment; a ValueError for a document type is no request.
mod Tests
use chic_mcp.Prelude.{
  ℕ, Bool, true, false, Option, none, some, List, [], ◌∷◌, ◌++◌, map, min, String, ◌==◌, string_eq,
  if◌then◌else◌,
}
use chic_mcp.Prelude.Int.{ℤ, pos}
use chic_mcp.Prelude.Text.{Text, codes}
use chic_mcp.Moysklad.Dates.{normalize_moment, normalize_moment_end}
use chic_mcp.Moysklad.Documents.{valid_document_type}
use chic_mcp.Moysklad.Options.{
  QueryParams, ListOptions, ProfitOptions, StockOptions, DocumentQuery, when_set, when_expand,
  filters, list_values, profit_values, stock_values, document_values,
}

-- One request, or pages up to a limit, of a size if it is given
pub data Paging : Type 0 where
  single : Paging
  paged : ℤ → Option ℕ → Paging

pub record Sent : Type 0 where
  pub path : Text
  pub params : QueryParams
  pub paging : Paging

-- A path with a last part
under : String → Text → Text
under front part = codes front ++ part

get_all : Text → QueryParams → ℤ → Sent
get_all path params limit = record { path = path; params = params; paging = paged limit none }

get_one : Text → QueryParams → Sent
get_one path params = record { path = path; params = params; paging = single }

-- `if id: params.append(("filter", f"{name}={base}{place}{id}"))`
unfoldable pub when_id : String → Text → String → Text → QueryParams
when_id name base place [] = []
when_id name base place (c ∷ id) = ("filter", codes name ++ (base ++ (codes place ++ c ∷ id))) ∷ []

-- `momentFrom`, `momentTo` and `interval`
period_params : Text → Text → Text → QueryParams
period_params date_from date_to interval =
    when_set "momentFrom" (normalize_moment date_from)
    ++ (when_set "momentTo" (normalize_moment_end date_to) ++ when_set "interval" interval)

unfoldable pub list_products : ListOptions → Sent
unfolding get_all
list_products opts = get_all (codes "/entity/product") (list_values opts) opts.limit

unfoldable pub search_counterparties : ListOptions → Sent
unfolding get_all
search_counterparties opts = get_all (codes "/entity/counterparty") (list_values opts) opts.limit

unfoldable pub account_currency_request : Sent
unfolding get_all
account_currency_request =
    get_all (codes "/entity/currency") (("filter", codes "default=true") ∷ []) (pos 0)

unfoldable pub list_entity_refs : Text → ListOptions → Sent
unfolding get_all under
list_entity_refs entity opts = get_all (under "/entity/" entity) (list_values opts) opts.limit

unfoldable pub search_assortment : ListOptions → Sent
unfolding get_all
search_assortment opts = get_all (codes "/entity/assortment") (list_values opts) opts.limit

unfoldable pub list_states : String → Option Sent
unfolding get_one under
list_states doc_type =
    if valid_document_type doc_type
    then some (get_one (under "/entity/" (codes doc_type ++ codes "/metadata")) [])
    else none

unfoldable pub get_dashboard : Text → Sent
unfolding get_one under
get_dashboard period = get_one (under "/report/dashboard/" period) []

unfoldable pub profit_by_product : Bool → ProfitOptions → Sent
unfolding get_all
profit_by_product variant opts =
    get_all (codes (if variant then "/report/profit/byvariant" else "/report/profit/byproduct"))
      (profit_values opts) opts.limit

unfoldable pub profit_by_entity : Text → ProfitOptions → Sent
unfolding get_all under
profit_by_entity dimension opts =
    get_all (under "/report/profit/by" dimension) (profit_values opts) opts.limit

unfoldable pub get_turnover : ProfitOptions → Sent
unfolding get_all
get_turnover opts = get_all (codes "/report/turnover/all") (profit_values opts) opts.limit

unfoldable pub get_counterparty_report : List Text → ℤ → Sent
unfolding get_all
get_counterparty_report fs limit = get_all (codes "/report/counterparty") (filters fs) limit

unfoldable pub get_money_series : Text → Text → Text → Sent
unfolding get_one period_params
get_money_series date_from date_to interval =
    get_one (codes "/report/money/plotseries") (period_params date_from date_to interval)

unfoldable pub get_stock_by_store : StockOptions → Sent
unfolding get_all
get_stock_by_store opts = get_all (codes "/report/stock/bystore") (stock_values opts) opts.limit

-- Pages of at most 100 rows
unfoldable pub get_audit : ℕ → List Text → ℤ → Sent
get_audit page_limit fs limit = record {
  path = codes "/audit";
  params = filters fs;
  paging = paged limit (some (min page_limit 100));
}

module _ (base_url : Text) where
  unfoldable pub get_stock : StockOptions → Sent
  unfolding get_all
  get_stock opts =
      get_all (codes "/report/stock/all")
        (stock_values opts ++ when_id "store=" base_url "/entity/store/" opts.store_id) opts.limit

  unfoldable pub get_sales_series : String → Text → Text → Text → Text → Text → Text → Sent
  unfolding get_one period_params
  get_sales_series kind date_from date_to interval store_id organization_id project_id =
      get_one
        (codes
          (if kind == "orders" then "/report/orders/plotseries" else "/report/sales/plotseries"))
        (period_params date_from date_to interval
          ++ (when_id "store=" base_url "/entity/store/" store_id
              ++ (when_id "organization=" base_url "/entity/organization/" organization_id
                  ++ when_id "project=" base_url "/entity/project/" project_id)))

  -- The request of a search for documents of a type
  unfoldable pub document_request : String → DocumentQuery → Sent
  unfolding get_all under
  document_request doc_type query =
      get_all (under "/entity/" (codes doc_type))
        (document_values query base_url
          ++ (when_id "organization=" base_url "/entity/organization/" query.organization_id
              ++ (when_id "store=" base_url "/entity/store/" query.store_id
                  ++ when_id "state=" (base_url ++ (codes "/entity/" ++ codes doc_type))
                      "/metadata/states/" query.state_id)))
        query.limit

  -- `search_documents`
  unfoldable pub search_documents : String → DocumentQuery → Option Sent
  search_documents doc_type query =
      if valid_document_type doc_type then some (document_request doc_type query) else none

-- `get_document`
unfoldable pub get_document : (Text → Text) → String → Text → List Text → Option Sent
unfolding get_one under
get_document quote doc_type doc_id expand =
    if valid_document_type doc_type
    then some (
        get_one (under "/entity/" (codes doc_type ++ (codes "/" ++ quote doc_id)))
          (when_expand expand))
    else none
