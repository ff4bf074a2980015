-- ===== src/Agent/History.antt =====
-- The history that the model is given: `_condense_history` of chic/agent/agent.py, over the store.
-- `summarize` stands for `_summarize_into` on a summary and messages to fold, a call of the model
-- that gives the empty text when it fails.
pub mod Bounded
pub mod Rising
pub mod Continued
use chic_mcp.Prelude.{
  ℕ, zero, suc, ◌+◌, ◌-◌, Bool, true, false, ◌||◌, Option, none, some, List, [], ◌∷◌, take, drop,
  length, sum_of, String, leb, ltb, ◌==◌, string_eq, if◌then◌else◌,
}
use chic_mcp.Prelude.Int.{ℤ, pos, negsuc}
use chic_mcp.Prelude.Text.{codes}
use chic_mcp.Store.Chat.{
  Message, Store, recent_messages, messages_since, get_session_summary, put_session_summary,
}

abbrev pub summary_keep_recent : ℕ
summary_keep_recent = 6

abbrev pub max_unsummarized_scan : ℕ
max_unsummarized_scan = 400

-- `sum(len(m.content) for m in tail)`
abbrev pub total_chars : List Message → ℕ
total_chars tail = sum_of (λ m. length (codes m.content)) tail

unfoldable pub last_id : List Message → ℕ
last_id [] = 0
last_id (m ∷ []) = m.id
last_id (m ∷ n ∷ ms) = last_id (n ∷ ms)

-- `up_to`, moved up to the boundary of the session
unfoldable pub watermark : ℕ → ℕ → ℕ
watermark up_to epoch = if ltb up_to epoch then epoch else up_to

-- The summary, the messages, and the store after the call
abbrev pub Condensed : Type 0
Condensed = String × List Message × Store

-- The part of `_condense_history` after its reads
unfoldable pub condense_tail :
    (String → List Message → String) → ℕ → ℕ → ℕ → String → List Message → Store → Condensed
unfolding last_id
condense_tail summarize budget user_id epoch summary tail s =
    let foldable = take (length tail - summary_keep_recent) tail in
    let recent = drop (length tail - summary_keep_recent) tail in
    let next = summarize summary foldable in
    if leb (total_chars tail) budget || leb (length tail) summary_keep_recent
    then (summary, tail, s)
    else if next == ""
    then (summary, recent, s)
    else (next, recent, put_session_summary user_id epoch next (last_id foldable) s)

-- `_condense_history`
unfoldable pub condense_history :
    (String → List Message → String) → ℤ → ℤ → ℕ → ℕ → Store → Condensed
unfolding condense_tail watermark
condense_history summarize (negsuc k) history_depth user_id epoch s =
    ("", recent_messages user_id history_depth s, s)
condense_history summarize (pos budget) history_depth user_id epoch s =
    let saved = get_session_summary user_id epoch s in
    let tail = messages_since user_id (watermark (saved.1) epoch) (pos max_unsummarized_scan) s in
    condense_tail summarize budget user_id epoch (saved.0) tail s
