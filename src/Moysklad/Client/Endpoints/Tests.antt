-- ===== src/Moysklad/Client/Endpoints/Tests.antt =====
-- The endpoints of chic/moysklad/client.py: a search at a concrete input.
use mathlib.Core.Option
use chic_mcp.Prelude.{refl, ◌≡◌, none, some, [], ◌∷◌}
use chic_mcp.Prelude.Int.{pos}
use chic_mcp.Prelude.Text.{Text, codes}
use chic_mcp.Moysklad.Dates.{normalize_moment, normalize_moment_end}
use chic_mcp.Moysklad.Documents.{valid_document_type}
use chic_mcp.Moysklad.Options.{DocumentQuery, document_values, when_expand}
use chic_mcp.Moysklad.Client.Endpoints.{when_id, document_request, search_documents}

abbrev base : Text
base = codes "https://api"

-- The demands of July from one store
abbrev query : DocumentQuery
query = record {
  from_date = codes "2026-07-01";
  to = codes "2026-07-31";
  counterparty_id = [];
  state_id = [];
  organization_id = [];
  store_id = codes "s1";
  filter = [];
  search = [];
  expand = codes "agent" ∷ [];
  limit = pos 100;
  order = codes "moment,desc";
}

unsupported : search_documents base "nonsense" query ≡ none
unfolding search_documents valid_document_type
unsupported = refl

-- What the API is sent for the demands of July
demands :
    Option.map (λ sent. sent.params) (search_documents base "demand" query)
    ≡ some (
        ("filter", codes "moment>=2026-07-01 00:00:00")
        ∷ ("filter", codes "moment<=2026-07-31 23:59:59")
        ∷ ("expand", codes "agent")
        ∷ ("order", codes "moment,desc")
        ∷ ("filter", codes "store=https://api/entity/store/s1")
        ∷ [])
unfolding search_documents valid_document_type document_request when_id document_values
    normalize_moment normalize_moment_end when_expand
demands = refl
