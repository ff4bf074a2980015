-- ===== src/Agent/Turn.antt =====
-- One message to the agent: `handle`, `_persist`, `_clarify_result` and `_to_message_history` of
-- chic/agent/agent.py. `run` is the run of the model and its tools, which may change the store;
-- `writes` says whether SQLite takes the message of a role. The grounding check changes nothing.
pub mod Logged
pub mod Choice
mod Tests
use Prim.Native.String.{◌++◌}
use chic_mcp.Prelude.{
  ℕ, Bool, true, false, ◌&&◌, not, Option, none, some, List, [], ◌∷◌, map, filter, length, String,
  ltb, ◌==◌, string_eq, if◌then◌else◌,
}
use chic_mcp.Prelude.Int.{ℤ}
use chic_mcp.Prelude.Words.{strip}
use chic_mcp.Store.Chat.{
  Message, Preference, Store, append_message, start_session, session_epoch, preferences_of,
}
use chic_mcp.Agent.Rate.{Buckets, allow}
use chic_mcp.Agent.History.{condense_history}
use chic_mcp.Agent.Summary.{summarize_into}

-- `Result`
pub record Result : Type 0 where
  pub text : String
  pub options : List String
  pub allow_custom : Bool

plain : String → Result
plain text = record { text = text; options = []; allow_custom = false }

-- `[o.strip() for o in options if o.strip()]`
stripped : List String → List String
stripped [] = []
stripped (o ∷ os) = if strip o == "" then stripped os else strip o ∷ stripped os

-- `_clarify_result`
unfoldable pub clarify_result : String → List String → Bool → Result
unfolding plain stripped
clarify_result question options allow_custom =
    if ltb (length (stripped options)) 2
    then plain (strip question)
    else record { text = strip question; options = stripped options; allow_custom = allow_custom }

pub data ModelMessage : Type 0 where
  request : String → ModelMessage
  response : String → ModelMessage

-- `_to_message_history`
unfoldable pub to_message_history : List Message → List ModelMessage
to_message_history [] = []
to_message_history (m ∷ ms) =
    let rest = to_message_history ms in
    if m.role == "user"
    then request m.content ∷ rest
    else if m.role == "assistant"
    then response m.content ∷ rest
    else rest

-- A part of the prompt
pub data Part : Type 0 where
  words : String → Part
  image : String → Part

-- What the model is run with
pub record Request : Type 0 where
  pub prompt : List Part
  pub prefs : List Preference
  pub summary : String
  pub history : List ModelMessage
  pub vision : Bool

-- How a run ends: a text, a `Clarify`, UsageLimitExceeded, or another exception
pub data Answer : Type 0 where
  answer : String → Answer
  clarify : String → List String → Bool → Answer
  spent failed : Answer

-- The limiter and the database; no result is an exception.
pub record Turn : Type 0 where
  pub result : Option Result
  pub buckets : Buckets
  pub store : Store

-- A round of the loop of `_persist`
persist_one : (String → Bool) → ℕ → String → String → Store → Store
persist_one writes user_id role content s =
    if content == "" then s else if writes role then append_message user_id role content s else s

-- `_persist`
unfoldable pub persist : (String → Bool) → ℕ → String → String → Store → Store
unfolding persist_one
persist writes user_id user_text reply s =
    persist_one writes user_id "assistant" reply (persist_one writes user_id "user" user_text s)

-- The parts of the prompt, and the text that is kept of the message
prompt_of : String → String → List Part
prompt_of text data_uri =
    if data_uri == ""
    then words text ∷ []
    else if text == ""
    then image data_uri ∷ []
    else words text ∷ image data_uri ∷ []

unfoldable pub stored_text : String → String → String
stored_text text data_uri = if data_uri == "" then text else strip ("[фото] " ++ text)

-- What follows the run
unfoldable pub finish : (String → Bool) → ℕ → String → Buckets → Answer → Store → Turn
unfolding plain
finish writes user_id stored buckets (answer out) s = record {
  result = some (plain (strip out));
  buckets = buckets;
  store = persist writes user_id stored (strip out) s;
}
finish writes user_id stored buckets (clarify question options allow_custom) s = record {
  result = some (clarify_result question options allow_custom);
  buckets = buckets;
  store = persist writes user_id stored ((clarify_result question options allow_custom).text) s;
}
finish writes user_id stored buckets spent s = record {
  result =
      some (plain "Запрос вышел слишком дорогим, я остановил обработку. Попробуйте сузить вопрос.");
  buckets = buckets;
  store = s;
}
finish writes user_id stored buckets failed s = record {
  result = none;
  buckets = buckets;
  store = s;
}

-- What an agent is built with
pub record Config : Type 0 where
  pub hz : ℕ
  pub rate_per_hour : ℤ
  pub has_vision : Bool
  pub summary_char_budget : ℤ
  pub history_depth : ℤ
  pub ahead : String → String → Bool
  pub complete : String → Option String
  pub run : Request → Store → Answer × Store
  pub writes : String → Bool

module _ (c : Config) (user_id : ℕ) where
  -- The request of a turn, and the store after the reads that make it
  unfoldable pub request_of : String → String → Store → Request × Store
  unfolding prompt_of
  request_of text data_uri s =
      let condensed =
        condense_history (summarize_into c.complete) c.summary_char_budget c.history_depth user_id
          (session_epoch user_id s) s in
      (
        record {
          prompt = prompt_of text data_uri;
          prefs = preferences_of c.ahead user_id s;
          summary = condensed.0;
          history = to_message_history (condensed.1);
          vision = not (data_uri == "");
        },
        condensed.2,
      )

  -- The part of `handle` after its two guards
  unfoldable pub answer_turn : String → String → Buckets → Store → Turn
  answer_turn text data_uri buckets s =
      let made = request_of text data_uri s in
      let ran = c.run (made.0) (made.1) in
      finish c.writes user_id (stored_text text data_uri) buckets (ran.0) (ran.1)

  -- `handle`, at a time of the clock
  unfoldable pub handle : ℕ → String → String → Buckets → Store → Turn
  unfolding plain answer_turn
  handle now_ts text data_uri buckets s =
      let asked = allow c.hz c.rate_per_hour user_id now_ts buckets in
      if not (asked.0)
      then record {
        result = some (plain "Слишком много запросов — сделайте паузу и попробуйте позже.");
        buckets = asked.1;
        store = s;
      }
      else if not (data_uri == "") && not c.has_vision
      then record {
        result =
            some (
              plain
                "Обработка фото не настроена (нет vision-провайдера). Пришлите вопрос текстом.");
        buckets = asked.1;
        store = s;
      }
      else answer_turn text data_uri (asked.1) s

-- `reset`
unfoldable pub reset : ℕ → Store → Store
reset user_id s = start_session user_id s
