-- ===== src/Agent/Turn/Tests.antt =====
-- Turns of chic/agent/agent.py: runs at concrete inputs.
use chic_mcp.Prelude.{◌≡◌, refl, true, false, none, [], ◌++◌, string_eq, if◌then◌else◌}
use chic_mcp.Prelude.Int.{pos}
use chic_mcp.Store.Chat.{Store}
use chic_mcp.Agent.Turn.{Config, Request, Answer, answer, request_of, stored_text, handle}
use chic_mcp.Agent.Turn.Logged.{is_refused, reply_rows, reply_of, handle-messages}

abbrev echo : Request → Store → Answer × Store
echo r s = (answer "42", s)

abbrev config : Config
config = record {
  hz = 1;
  rate_per_hour = pos 30;
  has_vision = false;
  summary_char_budget = pos 300000;
  history_depth = pos 20;
  ahead = λ a b. true;
  complete = λ s. none;
  run = echo;
  writes = λ role. true;
}

abbrev empty_store : Store
empty_store = record { messages = []; next_id = 1; summaries = []; preferences = [] }

handle-messages_example :
    (handle config 7 1000 "stock?" "" [] empty_store).store.messages
    ≡ []
      ++ (if is_refused config 7 1000 "" []
          then []
          else reply_rows config.writes 1 7 (stored_text "stock?" "") (
              reply_of (
                (echo
                  ((request_of config 7 "stock?" "" empty_store).0)
                  ((request_of config 7 "stock?" "" empty_store).1)).0)))
handle-messages_example =
    handle-messages config 7 (λ r s. refl) (λ r s. refl) 1000 "stock?" "" [] empty_store
