-- ===== src/Cache/Client/Calls.antt =====
-- The methods of `CachingClient` in chic/cache/client.py: the lifetime, the name and the parameters
-- that each hands to `_cached`. A document type is its text.
pub mod Keys
use chic_mcp.Prelude.{ℕ, Bool, List, [], ◌∷◌, String}
use chic_mcp.Prelude.Int.{ℤ}
use chic_mcp.Prelude.Text.{Text}
use chic_mcp.Moysklad.Options.{ListOptions, ProfitOptions, StockOptions, DocumentQuery}

-- `TTLs`, in milliseconds.
pub record Ttls : Type 0 where
  pub products : ℕ
  pub dashboard : ℕ
  pub reports : ℕ
  pub documents : ℕ
  pub counterparty : ℕ
  pub currency : ℕ
  pub references : ℕ
  pub audit : ℕ

-- The defaults of `TTLs`.
abbrev pub default_ttls : Ttls
default_ttls = record {
  products = 1800000;
  dashboard = 300000;
  reports = 600000;
  documents = 300000;
  counterparty = 1800000;
  currency = 86400000;
  references = 3600000;
  audit = 60000;
}

-- A value that `json.dumps` writes for a key.
pub data Param : Type 0 where
  nothing : Param
  text : Text → Param
  texts : List Text → Param
  flag : Bool → Param
  whole : ℤ → Param
  list_options : ListOptions → Param
  profit_options : ProfitOptions → Param
  stock_options : StockOptions → Param
  document_query : DocumentQuery → Param

-- One value, or an array of values.
pub data Params : Type 0 where
  one : Param → Params
  many : List Param → Params

pub record Request : Type 0 where
  pub ttl : ℕ
  pub method : String
  pub params : Params

unfoldable pub list_products : Ttls → ListOptions → Request
list_products ttls opts = record {
  ttl = ttls.products;
  method = "ListProducts";
  params = one (Param.list_options opts);
}

unfoldable pub search_counterparties : Ttls → ListOptions → Request
search_counterparties ttls opts = record {
  ttl = ttls.counterparty;
  method = "SearchCounterparties";
  params = one (Param.list_options opts);
}

unfoldable pub account_currency : Ttls → Request
account_currency ttls = record {
  ttl = ttls.currency;
  method = "AccountCurrency";
  params = one Param.nothing;
}

unfoldable pub list_entity_refs : Ttls → Text → ListOptions → Request
list_entity_refs ttls entity opts = record {
  ttl = ttls.references;
  method = "ListEntityRefs";
  params = many (Param.text entity ∷ Param.list_options opts ∷ []);
}

unfoldable pub search_assortment : Ttls → ListOptions → Request
search_assortment ttls opts = record {
  ttl = ttls.references;
  method = "SearchAssortment";
  params = one (Param.list_options opts);
}

unfoldable pub list_states : Ttls → Text → Request
list_states ttls doc_type = record {
  ttl = ttls.references;
  method = "ListStates";
  params = one (Param.text doc_type);
}

unfoldable pub get_dashboard : Ttls → Text → Request
get_dashboard ttls period = record {
  ttl = ttls.dashboard;
  method = "GetDashboard";
  params = one (Param.text period);
}

unfoldable pub profit_by_product : Ttls → Bool → ProfitOptions → Request
profit_by_product ttls variant opts = record {
  ttl = ttls.reports;
  method = "ProfitByProduct";
  params = many (Param.flag variant ∷ Param.profit_options opts ∷ []);
}

unfoldable pub profit_by_entity : Ttls → Text → ProfitOptions → Request
profit_by_entity ttls dimension opts = record {
  ttl = ttls.reports;
  method = "ProfitByEntity";
  params = many (Param.text dimension ∷ Param.profit_options opts ∷ []);
}

unfoldable pub get_turnover : Ttls → ProfitOptions → Request
get_turnover ttls opts = record {
  ttl = ttls.reports;
  method = "GetTurnover";
  params = one (Param.profit_options opts);
}

unfoldable pub get_stock : Ttls → StockOptions → Request
get_stock ttls opts = record {
  ttl = ttls.reports;
  method = "GetStock";
  params = one (Param.stock_options opts);
}

unfoldable pub get_counterparty_report : Ttls → List Text → ℤ → Request
get_counterparty_report ttls filters limit = record {
  ttl = ttls.reports;
  method = "GetCounterpartyReport";
  params = many (Param.texts filters ∷ Param.whole limit ∷ []);
}

unfoldable pub get_money_series : Ttls → Text → Text → Text → Request
get_money_series ttls date_from date_to interval = record {
  ttl = ttls.reports;
  method = "GetMoneySeries";
  params = many (Param.text date_from ∷ Param.text date_to ∷ Param.text interval ∷ []);
}

unfoldable pub get_stock_by_store : Ttls → StockOptions → Request
get_stock_by_store ttls opts = record {
  ttl = ttls.reports;
  method = "GetStockByStore";
  params = one (Param.stock_options opts);
}

unfoldable pub get_sales_series : Ttls → Text → Text → Text → Text → Text → Text → Text → Request
get_sales_series ttls kind date_from date_to interval store_id organization_id project_id = record {
  ttl = ttls.reports;
  method = "GetSalesSeries";
  params = many (
      Param.text kind
      ∷ Param.text date_from
      ∷ Param.text date_to
      ∷ Param.text interval
      ∷ Param.text store_id
      ∷ Param.text organization_id
      ∷ Param.text project_id
      ∷ []);
}

unfoldable pub get_audit : Ttls → List Text → ℤ → Request
get_audit ttls filters limit = record {
  ttl = ttls.audit;
  method = "GetAudit";
  params = many (Param.texts filters ∷ Param.whole limit ∷ []);
}

unfoldable pub search_documents : Ttls → Text → DocumentQuery → Request
search_documents ttls doc_type query = record {
  ttl = ttls.documents;
  method = "SearchDocuments";
  params = many (Param.text doc_type ∷ Param.document_query query ∷ []);
}

unfoldable pub get_document : Ttls → Text → Text → List Text → Request
get_document ttls doc_type doc_id expand = record {
  ttl = ttls.documents;
  method = "GetDocument";
  params = many (Param.text doc_type ∷ Param.text doc_id ∷ Param.texts expand ∷ []);
}

-- A call of one of the methods.
pub data Call : Type 0 where
  list_products_call : ListOptions → Call
  search_counterparties_call : ListOptions → Call
  account_currency_call : Call
  list_entity_refs_call : Text → ListOptions → Call
  search_assortment_call : ListOptions → Call
  list_states_call : Text → Call
  get_dashboard_call : Text → Call
  profit_by_product_call : Bool → ProfitOptions → Call
  profit_by_entity_call : Text → ProfitOptions → Call
  get_turnover_call : ProfitOptions → Call
  get_stock_call : StockOptions → Call
  get_counterparty_report_call : List Text → ℤ → Call
  get_money_series_call : Text → Text → Text → Call
  get_stock_by_store_call : StockOptions → Call
  get_sales_series_call : Text → Text → Text → Text → Text → Text → Text → Call
  get_audit_call : List Text → ℤ → Call
  search_documents_call : Text → DocumentQuery → Call
  get_document_call : Text → Text → List Text → Call

-- What the call hands to `_cached`.
unfoldable pub request : Ttls → Call → Request
unfolding list_products search_counterparties account_currency list_entity_refs search_assortment
    list_states get_dashboard profit_by_product profit_by_entity get_turnover get_stock
    get_counterparty_report get_money_series get_stock_by_store get_sales_series get_audit
    search_documents get_document
request ttls (list_products_call opts) = list_products ttls opts
request ttls (search_counterparties_call opts) = search_counterparties ttls opts
request ttls account_currency_call = account_currency ttls
request ttls (list_entity_refs_call entity opts) = list_entity_refs ttls entity opts
request ttls (search_assortment_call opts) = search_assortment ttls opts
request ttls (list_states_call doc_type) = list_states ttls doc_type
request ttls (get_dashboard_call period) = get_dashboard ttls period
request ttls (profit_by_product_call variant opts) = profit_by_product ttls variant opts
request ttls (profit_by_entity_call dimension opts) = profit_by_entity ttls dimension opts
request ttls (get_turnover_call opts) = get_turnover ttls opts
request ttls (get_stock_call opts) = get_stock ttls opts
request ttls (get_counterparty_report_call filters limit) =
    get_counterparty_report ttls filters limit
request ttls (get_money_series_call date_from date_to interval) =
    get_money_series ttls date_from date_to interval
request ttls (get_stock_by_store_call opts) = get_stock_by_store ttls opts
request ttls
      (get_sales_series_call kind date_from date_to interval store_id organization_id project_id) =
    get_sales_series ttls kind date_from date_to interval store_id organization_id project_id
request ttls (get_audit_call filters limit) = get_audit ttls filters limit
request ttls (search_documents_call doc_type query) = search_documents ttls doc_type query
request ttls (get_document_call doc_type doc_id expand) = get_document ttls doc_type doc_id expand
