-- ===== src/Aggregate/Bridge.antt =====
-- The profit bridge of chic/aggregate/bridge.py. An amount of money is a number of steps of which
-- `cent` make a hundredth, a quantity one of which 100 * `cent` make a unit; a product or quotient
-- is rounded to a step. A set of keys is in the order of a dictionary, on which only the order of
-- drivers with equal changes depends.
pub mod Partition
pub mod Reconciled
mod Tests
use chic_mcp.Prelude.{
  ℕ, ◌*◌, Bool, true, false, Option, none, some, List, [], ◌∷◌, ◌++◌, map, take, String, length,
  leb, ◌==◌, string_eq, if◌then◌else◌,
}
use chic_mcp.Prelude.Int.{ℤ, pos, pos_part, abs, neg, ◌+ℤ◌, ◌-ℤ◌, ◌*ℤ◌, leb_ℤ, ltb_ℤ, sum_ℤ}
use chic_mcp.Prelude.Dict.{Dict, get, put}
use chic_mcp.Aggregate.Money.{Money, Steps, round_div, money_round}
use chic_mcp.Aggregate.Models.Lines.{ProfitProductLine}
use chic_mcp.Aggregate.Models.Bridges.{BridgeDriver, ProfitBridge}
use chic_mcp.Aggregate.Envelope.{descending}

-- Two lines of one product
combine : ProfitProductLine → ProfitProductLine → ProfitProductLine
combine prev ln = record {
  id = ln.id;
  name = ln.name;
  code = "";
  sell_quantity = prev.sell_quantity +ℤ ln.sell_quantity;
  revenue = prev.revenue +ℤ ln.revenue;
  cost = prev.cost +ℤ ln.cost;
  return_sum = prev.return_sum +ℤ ln.return_sum;
  profit = prev.profit +ℤ ln.profit;
  margin_pct = pos 0;
}

-- A round of the loop of `_by_id`
add_line : Dict String ProfitProductLine → ProfitProductLine → Dict String ProfitProductLine
unfolding combine
add_line out ln = elim (get out ln.id) as (λ x. Dict String ProfitProductLine) [
  | none ↦ put out ln.id ln
  | some prev ↦ put out ln.id (combine prev ln)
]

add_lines : Dict String ProfitProductLine → List ProfitProductLine → Dict String ProfitProductLine
unfolding add_line
add_lines out [] = out
add_lines out (ln ∷ lines) =
    add_lines (if leb_ℤ ln.sell_quantity (pos 0) then out else add_line out ln) lines

-- `_by_id`
unfoldable pub by_id : List ProfitProductLine → Dict String ProfitProductLine
unfolding add_lines
by_id lines = add_lines [] lines

-- The lines of the keys in both, and those of the keys that the other lacks
unfoldable pub common :
    Dict String ProfitProductLine
    → Dict String ProfitProductLine
    → List (ProfitProductLine × ProfitProductLine)
common [] b = []
common ((k, la) ∷ a) b = elim (get b k) as (λ x. List (ProfitProductLine × ProfitProductLine)) [
  | none ↦ common a b
  | some lb ↦ (la, lb) ∷ common a b
]

unfoldable pub only :
    Dict String ProfitProductLine → Dict String ProfitProductLine → List ProfitProductLine
only [] b = []
only ((k, la) ∷ a) b = elim (get b k) as (λ x. List ProfitProductLine) [
  | none ↦ la ∷ only a b
  | some lb ↦ only a b
]

-- The effects of a product of both periods
pub record Effects : Type 0 where
  pub price : Steps
  pub cost : Steps
  pub quantity : Steps

-- The bridge before rounding
pub record Sums : Type 0 where
  pub delta : Steps
  pub price : Steps
  pub cost : Steps
  pub volume : Steps
  pub mix : Steps
  pub new_products : Steps
  pub discontinued : Steps

module _ (cent : ℕ) where
  -- A unit, `a * b` and `a / b` of two decimals
  one : ℤ
  one = pos (100 * cent)

  mul : Steps → Steps → Steps
  unfolding one
  mul a b = round_div (a *ℤ b) one

  div : Steps → Steps → Steps
  unfolding one
  div a b = round_div (a *ℤ one) b

  -- `_gross`, in steps
  unfoldable pub gross : ProfitProductLine → Steps
  gross ln = (ln.revenue -ℤ ln.cost) *ℤ pos cent

  -- The first half of the loop over the common keys
  unfoldable pub effects : ProfitProductLine × ProfitProductLine → Effects
  unfolding mul div
  effects (la, lb) =
      let qa = la.sell_quantity in
      let qb = lb.sell_quantity in
      let pa = div (la.revenue *ℤ pos cent) qa in
      let ca = div (la.cost *ℤ pos cent) qa in
      let pb = div (lb.revenue *ℤ pos cent) qb in
      let cb = div (lb.cost *ℤ pos cent) qb in
      let price = mul qb (pb -ℤ pa) in
      let cost = mul (neg qb) (cb -ℤ ca) in
      record { price = price; cost = cost; quantity = gross lb -ℤ gross la -ℤ price -ℤ cost }

  common_driver : ProfitProductLine × ProfitProductLine → BridgeDriver
  common_driver (la, lb) =
      let e = effects (la, lb) in
      record {
        name = la.name;
        kind = "common";
        qty_a = la.sell_quantity;
        qty_b = lb.sell_quantity;
        profit_a = money_round cent (gross la);
        profit_b = money_round cent (gross lb);
        delta = money_round cent (gross lb -ℤ gross la);
        price_effect = money_round cent e.price;
        cost_effect = money_round cent e.cost;
        qty_effect = money_round cent e.quantity;
      }

  -- `_absent_driver`
  absent_driver : String → String → ProfitProductLine → Steps → Steps → Steps → BridgeDriver
  absent_driver name kind ln profit_a profit_b delta = record {
    name = name;
    kind = kind;
    qty_a = if kind == "discontinued" then ln.sell_quantity else pos 0;
    qty_b = if kind == "new" then ln.sell_quantity else pos 0;
    profit_a = money_round cent profit_a;
    profit_b = money_round cent profit_b;
    delta = money_round cent delta;
    price_effect = pos 0;
    cost_effect = pos 0;
    qty_effect = pos 0;
  }

  new_driver : ProfitProductLine → BridgeDriver
  new_driver ln = absent_driver ln.name "new" ln (pos 0) (gross ln) (gross ln)

  discontinued_driver : ProfitProductLine → BridgeDriver
  discontinued_driver ln =
      absent_driver ln.name "discontinued" ln (gross ln) (pos 0) (neg (gross ln))

  -- `volume`
  volume_of : List (ProfitProductLine × ProfitProductLine) → Steps
  unfolding mul div
  volume_of both =
      let qa = sum_ℤ (λ p. p.0.sell_quantity) both in
      let qb = sum_ℤ (λ p. p.1.sell_quantity) both in
      if ltb_ℤ (pos 0) qa then mul (qb -ℤ qa) (div (sum_ℤ (λ p. gross (p.0)) both) qa) else pos 0

  -- The sums of the effects, and the change that they explain
  unfoldable pub sums : Dict String ProfitProductLine → Dict String ProfitProductLine → Sums
  unfolding volume_of
  sums a b =
      let both = common a b in
      record {
        delta = sum_ℤ (λ e. gross (e.1)) b -ℤ sum_ℤ (λ e. gross (e.1)) a;
        price = sum_ℤ (λ p. (effects p).price) both;
        cost = sum_ℤ (λ p. (effects p).cost) both;
        volume = volume_of both;
        mix = sum_ℤ (λ p. (effects p).quantity) both -ℤ volume_of both;
        new_products = sum_ℤ gross (only b a);
        discontinued = neg (sum_ℤ gross (only a b));
      }

  -- `residual`
  unfoldable pub residual : Sums → Steps
  residual s = s.price +ℤ s.cost +ℤ s.volume +ℤ s.mix +ℤ s.new_products +ℤ s.discontinued -ℤ s.delta

  -- The drivers in order, cut to the first ones
  drivers : Dict String ProfitProductLine → Dict String ProfitProductLine → ℤ → List BridgeDriver
  unfolding common_driver new_driver discontinued_driver absent_driver
  drivers a b top_n =
      let all =
        descending (λ (d : BridgeDriver). pos (abs d.delta))
          (map common_driver (common a b)
            ++ (map new_driver (only b a) ++ map discontinued_driver (only a b))) in
      if ltb_ℤ (pos 0) top_n then take (pos_part top_n) all else all

  -- `profit_bridge`, and whether it logs an error
  unfoldable pub profit_bridge :
      List ProfitProductLine → List ProfitProductLine → ℤ → ProfitBridge × Bool
  unfolding drivers
  profit_bridge a_lines b_lines top_n =
      let a = by_id a_lines in
      let b = by_id b_lines in
      let s = sums a b in
      let price = money_round cent s.price in
      let cost = money_round cent s.cost in
      let volume = money_round cent s.volume in
      let mix = money_round cent s.mix in
      let new_products = money_round cent s.new_products in
      let discontinued = money_round cent s.discontinued in
      (
        record {
          profit_a = money_round cent (sum_ℤ (λ e. gross (e.1)) a);
          profit_b = money_round cent (sum_ℤ (λ e. gross (e.1)) b);
          delta = money_round cent s.delta;
          price_effect = price;
          cost_effect = cost;
          volume_effect = volume;
          mix_effect = mix;
          new_products_effect = new_products;
          discontinued_effect = discontinued;
          rounding =
              money_round cent s.delta
              -ℤ (price +ℤ cost +ℤ volume +ℤ mix +ℤ new_products +ℤ discontinued);
          common_count = length (common a b);
          new_count = length (only b a);
          discontinued_count = length (only a b);
          top_drivers = drivers a b top_n;
        },
        leb cent (abs (residual s)),
      )
