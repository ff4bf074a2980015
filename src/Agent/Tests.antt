-- ===== src/Agent/Tests.antt =====
-- chic/agent: runs at concrete inputs.
use chic_mcp.Prelude.{ℕ, ◌+◌, ◌-◌, ◌*◌, ◌≤◌, arith, List, [], ◌∷◌, String}
use chic_mcp.Prelude.Int.{pos}
use chic_mcp.Store.Chat.{Message, Store, MessageRow, get_session_summary}
use chic_mcp.Agent.Rate.{token, allowed}
use chic_mcp.Agent.Rate.Bound.{last_time, allowed-le}
use chic_mcp.Agent.History.{watermark, condense_history}
use chic_mcp.Agent.History.Continued.{IsContinued, condense_history-IsContinued}
use chic_mcp.Agent.History.Rising.{turns_since}
use chic_mcp.Agent.History.Bounded.{IsBounded, condense_history-IsBounded}

abbrev calls : List (ℕ × ℕ)
calls = (7, 100) ∷ (8, 100) ∷ (7, 101) ∷ (7, 4000) ∷ []

allowed-le_example :
    token 1 * allowed 1 (pos 1) 7 calls [] ≤ 1 * token 1 + (last_time 100 calls - 100) * 1
allowed-le_example =
    allowed-le 1 1 7 100 calls (omega arith, (omega arith, (omega arith, (omega arith, tt))))

abbrev row : ℕ → MessageRow
row n = record { id = n; user_id = 7; role = "user"; content = "hello" }

abbrev store : Store
store = record {
  messages = row 1 ∷ row 2 ∷ row 3 ∷ row 4 ∷ row 5 ∷ row 6 ∷ row 7 ∷ row 8 ∷ [];
  next_id = 9;
  summaries = [];
  preferences = [];
}

abbrev short : String → List Message → String
short summary ms = "short"

condense_history-IsBounded_example :
    IsBounded 5
      (turns_since 7 (watermark ((get_session_summary 7 0 store).1) 0) store)
      ((condense_history short (pos 5) (pos 10) 7 0 store).1)
condense_history-IsBounded_example = condense_history-IsBounded short 5 7 0 (pos 10) store

condense_history-IsContinued_example :
    IsContinued short 7 0 store (condense_history short (pos 5) (pos 10) 7 0 store)
condense_history-IsContinued_example =
    condense_history-IsContinued short 5 7 0 (pos 10) store (omega arith)
