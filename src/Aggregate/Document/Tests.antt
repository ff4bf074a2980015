-- ===== src/Aggregate/Document/Tests.antt =====
-- chic/aggregate/document.py: runs at concrete inputs.
use chic_mcp.Prelude.{◌≡◌, refl}
use chic_mcp.Prelude.Int.{pos, ◌*ℤ◌, ◌-ℤ◌}
use chic_mcp.Moysklad.Models.Entities.{Meta}
use chic_mcp.Moysklad.Models.Papers.{Position}
use chic_mcp.Aggregate.Money.{Steps, half_up, round_div, money_round, minor_to_major}
use chic_mcp.Aggregate.Document.{position_row}

abbrev no_meta : Meta
no_meta = record {
  href = "";
  metadata_href = "";
  type = "";
  media_type = "";
  size = pos 0;
  limit = pos 0;
  offset = pos 0;
  next_href = "";
  previous_href = "";
}

-- Three units for 9.99 at a discount of a third, with three decimal places
abbrev position : Position Steps
position = record {
  id = "p1";
  quantity = pos 3000;
  price = pos 999000;
  discount = pos 33333;
  vat = pos 20;
  assortment = record { meta = no_meta; name = "tea"; code = "" };
}

discounted : (position_row 1000 position).total ≡ pos 1998
unfolding position_row minor_to_major money_round round_div half_up ◌*ℤ◌ ◌-ℤ◌
discounted = refl
