-- ===== src/Telegram/Bot/Tests.antt =====
-- chic/telegram: updates at concrete inputs.
use Prim.Native.String.{◌++◌}
use chic_mcp.Prelude.{
  ℕ, ◌≡◌, refl, arith, true, false, none, some, List, [], ◌∷◌, nat_eq, string_eq,
}
use chic_mcp.Prelude.Int.{pos}
use chic_mcp.Prelude.Sets.{contains}
use chic_mcp.Prelude.Words.{strip}
use chic_mcp.Prelude.Decimal.{show}
use chic_mcp.Store.Chat.{Store}
use chic_mcp.Agent.Turn.{Config, Request, Answer, answer}
use chic_mcp.Telegram.Dedupe.{Dedupe, init}
use chic_mcp.Telegram.Dedupe.Window.{init-IsValid}
use chic_mcp.Telegram.Keyboards.{clarify_prefix, clarify_keyboard}
use chic_mcp.Telegram.Bot.{
  Event, message, press, Shown, accessible, other, Action, answer_press, edit, Side, Setup, before,
  or_empty, run_and_deliver,
}
use chic_mcp.Telegram.Bot.Updates.{answered, is_allowed, user_of, route, feed_update, feed_all}
use chic_mcp.Telegram.Bot.Guarded.{IsTurnedAway, feed_all-IsTurnedAway, feed_update-again}
use chic_mcp.Telegram.Bot.Choice.{route-Choice}

abbrev echo : Request → Store → Answer × Store
echo r s = (answer "42", s)

abbrev agent : Config
agent = record {
  hz = 1;
  rate_per_hour = pos 30;
  has_vision = false;
  summary_char_budget = pos 300000;
  history_depth = pos 20;
  ahead = λ a b. true;
  complete = λ s. none;
  run = echo;
  writes = λ role. true;
}

abbrev setup : Setup
setup = record {
  allowed = 7 ∷ [];
  agent = agent;
  has_feedback = false;
  markdown = λ text. text;
  takes = λ text. true;
  now = 1000;
  span_id = "";
}

abbrev side : Side
side = record {
  buckets = [];
  store = record { messages = []; next_id = 1; summaries = []; preferences = [] };
}

abbrev question : ℕ → Event
question user_id = message (record {
  from_user = some user_id;
  chat = 1;
  command = other;
  text = some "stock?";
  caption = none;
  photo = none;
})

abbrev shown : Shown
shown = record {
  chat = 1;
  text = some "Which?";
  reply_markup = some (clarify_keyboard ("all" ∷ "one" ∷ []) true);
}

bot_code : Unit {0}
unfolding is_allowed user_of contains
bot_code = tt

feed_all-IsTurnedAway_example :
    IsTurnedAway side (feed_all setup ((5, question 8) ∷ (6, question 9) ∷ []) (init 2) side)
unfolding bot_code
feed_all-IsTurnedAway_example =
    feed_all-IsTurnedAway setup ((5, question 8) ∷ (6, question 9) ∷ []) (init 2) side
      (refl, (refl, tt))

feed_update-again_example :
    (actions : List Action) × (s' : Side) × (d' : Dedupe) × (feed_all setup
        ((5, question 7) ∷ (6, question 8) ∷ [])
        (init 2)
        side
      ≡ some ((actions, s'), d'))
    × (feed_update setup (5, question 7) d' s' ≡ some (([], s'), d'))
unfolding init contains
feed_update-again_example =
    feed_update-again setup 5 (question 7) (question 7) ((6, question 8) ∷ []) (init 2) side
      (init-IsValid 2 (omega arith)) (omega arith) (omega arith, tt) refl (omega arith)

route-Choice_example :
    route setup
      (press (record {
        from_user = 7;
        callback = some (clarify_prefix ++ show 1);
        message = accessible shown;
      }))
      side
    ≡ before
        (answer_press "" ∷ edit (answered (strip (or_empty shown.text)) "one") none ∷ [])
        (run_and_deliver setup 7 1 "one" "" side)
route-Choice_example =
    route-Choice setup 7 1 shown ("all" ∷ "one" ∷ []) true "one" side refl refl refl
