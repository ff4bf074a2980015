-- ===== src/Usecases/Tests.antt =====
-- chic/usecases.py: runs at concrete inputs.
use chic_mcp.Prelude.{ℕ, ◌≡◌, string_eq, none, List, [], ◌∷◌, String}
use chic_mcp.Prelude.Int.{pos, pos_part}
use chic_mcp.Prelude.Dict.{get}
use chic_mcp.Aggregate.Models.Lines.{ProfitProductLine}
use chic_mcp.Usecases.{DemandStats, demand_of}
use chic_mcp.Usecases.Demand.{last_history, first_estimate, or_else, demand_of-Source}

abbrev seen : String → ℕ → DemandStats
seen href days = record {
  product_href = href;
  name = href;
  code = "";
  days = days;
  mean_demand = pos 2000;
  std_demand = pos 500;
}

abbrev sold : String → ℕ → ProfitProductLine
sold id quantity = record {
  id = id;
  name = id;
  code = "";
  sell_quantity = pos quantity;
  revenue = pos 0;
  cost = pos 0;
  return_sum = pos 0;
  profit = pos 0;
  margin_pct = pos 0;
}

abbrev stats : List DemandStats
stats = seen "a" 20 ∷ seen "b" 2 ∷ []

abbrev lines : List ProfitProductLine
lines = sold "a" 9000 ∷ sold "b" 0 ∷ sold "b" 60000 ∷ []

demand_of-Source_example :
    get (demand_of 1000 (pos 500) stats lines) "b"
    ≡ or_else 1000
        (last_history "b" stats none)
        (first_estimate 1000 (pos (pos_part (pos 500))) "b" lines)
demand_of-Source_example = demand_of-Source 1000 (pos 500) stats lines "b"
