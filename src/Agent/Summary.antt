-- ===== src/Agent/Summary.antt =====
-- `_summarize_into` of chic/agent/agent.py. `complete` is the summary model's answer to a prompt,
-- `none` where the call raises.
use Prim.Native.String.{◌++◌}
use chic_mcp.Prelude.{ℕ, Option, List, [], ◌∷◌, String, ◌==◌, string_eq, if◌then◌else◌}
use chic_mcp.Prelude.Words.{take_chars}
use chic_mcp.Store.Chat.{Message}
use chic_mcp.Agent.Memory.{aux_run}

abbrev pub summary_max_chars : ℕ
summary_max_chars = 1200

-- The first lines of the prompt
heading : String → String
heading prev =
    if prev == ""
    then ""
    else "Предыдущее краткое содержание:\n" ++ prev ++ "\n\nНовые сообщения диалога:\n"

speaker : String → String
speaker role = if role == "assistant" then "Ассистент" else "Пользователь"

-- The loop that adds the messages
add_lines : String → List Message → String
unfolding speaker
add_lines buf [] = buf
add_lines buf (m ∷ ms) = add_lines (buf ++ speaker m.role ++ ": " ++ m.content ++ "\n") ms

unfoldable pub summarize_into : (String → Option String) → String → List Message → String
unfolding heading add_lines
summarize_into complete prev [] = prev
summarize_into complete prev (m ∷ ms) =
    take_chars summary_max_chars (aux_run (complete (add_lines (heading prev) (m ∷ ms))))
