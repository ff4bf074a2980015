-- ===== src/Jobs/Digest.antt =====
-- The morning digest of chic/jobs/digest.py. `money` is `_money`, the formatting by Babel, and
-- `notify` says whether a text reaches a chat, where it raises otherwise.
pub mod Delivered
use Prim.Native.String.{◌++◌}
use chic_mcp.Prelude.{ℕ, suc, Bool, Option, none, some, List, [], ◌∷◌, String, if◌then◌else◌}
use chic_mcp.Prelude.Int.{ℤ, pos, negsuc}
use chic_mcp.Prelude.Decimal.{show}
use chic_mcp.Aggregate.Money.{Money}
use chic_mcp.Aggregate.Models.Lines.{DashboardSummary}

-- A whole number in a text
show_ℤ : ℤ → String
show_ℤ (pos n) = show n
show_ℤ (negsuc n) = "-" ++ show (suc n)

-- `compose`
unfoldable pub compose : (Money → String → String) → DashboardSummary → String → String
unfolding show_ℤ
compose money dash code =
    "☀\u{fe0f} <b>Сводка за день</b>\n\n"
    ++ "🛒 Продажи: "
    ++ money dash.sales_amount code
    ++ " ("
    ++ show_ℤ dash.sales_count
    ++ " шт.)\n"
    ++ "    к прошлому периоду: "
    ++ money dash.sales_delta_vs_prev code
    ++ "\n"
    ++ "📦 Заказы: "
    ++ money dash.orders_amount code
    ++ " ("
    ++ show_ℤ dash.orders_count
    ++ ")\n"
    ++ "💰 Деньги: приход "
    ++ money dash.money_income code
    ++ ", "
    ++ "расход "
    ++ money dash.money_outcome code
    ++ ", "
    ++ "остаток "
    ++ money dash.money_balance code

-- What a run needs: `JobContext`, and the currency
pub record Context : Type 0 where
  pub dashboard : Option DashboardSummary
  pub notify : ℕ → String → Bool
  pub recipients : List ℕ
  pub currency : String

-- A delivery: the chat, the text, and whether it arrived
pub record Delivery : Type 0 where
  pub chat : ℕ
  pub text : String
  pub arrived : Bool

-- The loop of `run`: a delivery that raises is logged.
deliver_all : (ℕ → String → Bool) → String → List ℕ → List Delivery
deliver_all notify text [] = []
deliver_all notify text (chat ∷ chats) =
    record { chat = chat; text = text; arrived = notify chat text } ∷ deliver_all notify text chats

-- What follows the dashboard; no result is its exception.
with_dashboard :
    (Money → String → String) → Context → Option DashboardSummary → List ℕ → Option (List Delivery)
unfolding deliver_all
with_dashboard money ctx none chats = none
with_dashboard money ctx (some dash) chats =
    some (deliver_all ctx.notify (compose money dash ctx.currency) chats)

-- A context without recipients delivers nothing.
run_in : (Money → String → String) → Context → List ℕ → Option (List Delivery)
unfolding with_dashboard
run_in money ctx [] = some []
run_in money ctx (chat ∷ chats) = with_dashboard money ctx ctx.dashboard (chat ∷ chats)

-- `run`
unfoldable pub run : (Money → String → String) → Option Context → Option (List Delivery)
unfolding run_in
run money none = some []
run money (some ctx) = run_in money ctx ctx.recipients
