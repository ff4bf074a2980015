-- ===== src/Moysklad/Options.antt =====
-- chic/moysklad/options.py: the query parameters of each kind of request.
use chic_mcp.Prelude.{List, [], ◌∷◌, ◌++◌, map, String, string_eq}
use chic_mcp.Prelude.Int.{ℤ}
use chic_mcp.Prelude.Text.{Text, codes}
use chic_mcp.Moysklad.Dates.{normalize_moment, normalize_moment_end}

abbrev pub QueryParams : Type 0
QueryParams = List (String × Text)

-- `",".join(parts)`
unfoldable pub join_comma : List Text → Text
join_comma [] = []
join_comma (t ∷ []) = t
join_comma (t ∷ u ∷ ts) = t ++ b',' ∷ join_comma (u ∷ ts)

-- `if value: v.append((key, value))`
abbrev pub when_set : String → Text → QueryParams
when_set key [] = []
when_set key (c ∷ s) = (key, c ∷ s) ∷ []

abbrev pub filters : List Text → QueryParams
filters = map (λ f. ("filter", f))

-- `if self.expand: v.append(("expand", ",".join(self.expand)))`
unfoldable pub when_expand : List Text → QueryParams
unfolding join_comma
when_expand [] = []
when_expand (e ∷ es) = ("expand", join_comma (e ∷ es)) ∷ []

pub record ListOptions : Type 0 where
  pub search : Text
  pub filter : List Text
  pub expand : List Text
  pub limit : ℤ
  pub order : Text

pub record ProfitOptions : Type 0 where
  pub from_date : Text
  pub to : Text
  pub filter : List Text
  pub limit : ℤ

pub record StockOptions : Type 0 where
  pub stock_mode : Text
  pub group_by : Text
  pub moment : Text
  pub store_id : Text
  pub filter : List Text
  pub limit : ℤ

pub record DocumentQuery : Type 0 where
  pub from_date : Text
  pub to : Text
  pub counterparty_id : Text
  pub state_id : Text
  pub organization_id : Text
  pub store_id : Text
  pub filter : List Text
  pub search : Text
  pub expand : List Text
  pub limit : ℤ
  pub order : Text

-- `ListOptions.values`
unfoldable pub list_values : ListOptions → QueryParams
unfolding when_expand
list_values o =
    when_set "search" o.search
    ++ (filters o.filter ++ (when_expand o.expand ++ when_set "order" o.order))

-- `ProfitOptions.values`
unfoldable pub profit_values : ProfitOptions → QueryParams
profit_values o =
    when_set "momentFrom" (normalize_moment o.from_date)
    ++ (when_set "momentTo" (normalize_moment_end o.to) ++ filters o.filter)

-- `StockOptions.values`
unfoldable pub stock_values : StockOptions → QueryParams
stock_values o =
    when_set "stockMode" o.stock_mode
    ++ (when_set "groupBy" o.group_by
        ++ (when_set "moment" (normalize_moment o.moment) ++ filters o.filter))

-- `if text: filters.append(prefix + text)`
abbrev pub prefixed : Text → Text → List Text
prefixed label [] = []
prefixed label (c ∷ s) = (label ++ c ∷ s) ∷ []

-- `DocumentQuery.values`
unfoldable pub document_values : DocumentQuery → Text → QueryParams
unfolding when_expand
document_values q base_url =
    filters (
      prefixed (codes "moment>=") (normalize_moment q.from_date)
      ++ (prefixed (codes "moment<=") (normalize_moment_end q.to)
          ++ (prefixed (codes "agent=" ++ (base_url ++ codes "/entity/counterparty/"))
                q.counterparty_id
              ++ q.filter)))
    ++ (when_set "search" q.search ++ (when_expand q.expand ++ when_set "order" q.order))
