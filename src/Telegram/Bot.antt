-- ===== src/Telegram/Bot.antt =====
-- The bot of chic/telegram/bot.py: what it is built with, what it does, and how it delivers answers. aiogram's parsing of a
-- message (its command, user and photo) is in the update. `markdown` is the conversion of a chunk,
-- and `takes` says whether Telegram takes a text; other sends are taken. Tracing is left out but for
-- the text of the span's id, a parameter.
pub mod Updates
pub mod Guarded
pub mod Choice
mod Tests
use Prim.Native.String.{◌++◌}
use mathlib.Core.List
use chic_mcp.Prelude.{
  ℕ, Bool, true, false, Option, none, some, List, [], ◌∷◌, map, String, get_elem?, ◌==◌, nat_eq,
  string_eq, if◌then◌else◌,
}
use chic_mcp.Prelude.Sets.{contains}
use chic_mcp.Prelude.Text.{Text, codes}
use chic_mcp.Prelude.Words.{after_prefix, strip}
use chic_mcp.Store.Chat.{Preference, Store, preferences_of, delete_preference}
use chic_mcp.Agent.Rate.{Buckets}
use chic_mcp.Agent.Turn.{Result, Config, handle, reset}
use chic_mcp.Telegram.Dedupe.{Dedupe, first_seen}
use chic_mcp.Telegram.Keyboards.{
  Markup, mem_forget_prefix, clarify_custom, index_from_callback, menu_keyboard,
  template_by_callback, render_memory, clarify_keyboard, feedback_keyboard, parse_feedback,
  button_label,
}
use chic_mcp.Telegram.Photo.{Photo, loaded, too_large, fails}
use chic_mcp.Telegram.Render.{source_chunks}

pub data Command : Type 0 where
  menu memory new other : Command

pub record Message : Type 0 where
  pub from_user : Option ℕ
  pub chat : ℕ
  pub command : Command
  pub text : Option String
  pub caption : Option String
  pub photo : Option Photo

-- The message that a pressed button hangs on
pub record Shown : Type 0 where
  pub chat : ℕ
  pub text : Option String
  pub reply_markup : Option Markup

-- Where a press comes from: `cb.message`, of which Telegram may give no more than the chat
pub data Origin : Type 0 where
  nowhere : Origin
  inaccessible : ℕ → Origin
  accessible : Shown → Origin

pub record Press : Type 0 where
  pub from_user : ℕ
  pub callback : Option String
  pub message : Origin

pub data Event : Type 0 where
  message : Message → Event
  press : Press → Event

-- What the bot does: it sends a text with a keyboard to a chat, answers a press, takes the keyboard
-- of a message off, edits a message, or passes a rating on.
pub data Action : Type 0 where
  send : ℕ → Text → Option Markup → Action
  answer_press : String → Action
  drop_keyboard : Action
  edit : String → Option Markup → Action
  rate : String → String → ℕ → ℕ → Action

-- What changes: the agent's limiter and database
pub record Side : Type 0 where
  pub buckets : Buckets
  pub store : Store

abbrev pub Done : Type 0
Done = List Action × Side

say : ℕ → String → Action
say chat text = send chat (codes text) none

-- What the bot is built with, and the time and the span's id of an update
pub record Setup : Type 0 where
  pub allowed : List ℕ
  pub agent : Config
  pub has_feedback : Bool
  pub markdown : Text → Text
  pub takes : Text → Bool
  pub now : ℕ
  pub span_id : String

-- `x or ""`
unfoldable pub or_empty : Option String → String
or_empty none = ""
or_empty (some s) = s

-- Actions before those of a run
unfoldable pub before : List Action → Done → Done
before actions (more, s) = (List.◌++◌ actions more, s)

module _ (b : Setup) where
  -- A chunk as it is taken, if it is
  unfoldable pub send_chunk : ℕ → Text → Option Markup → List Action
  send_chunk chat chunk markup =
      if b.takes (b.markdown chunk)
      then send chat (b.markdown chunk) markup ∷ []
      else if b.takes chunk
      then send chat chunk markup ∷ []
      else []

  -- The loop of `_send_chunks`: the last chunk carries the keyboard.
  unfoldable pub send_all : ℕ → List Text → Option Markup → List Action
  send_all chat [] markup = []
  send_all chat (c ∷ []) markup = send_chunk chat c markup
  send_all chat (c ∷ d ∷ cs) markup =
      List.◌++◌ (send_chunk chat c none) (send_all chat (d ∷ cs) markup)

  -- `_send_chunks`
  send_chunks : ℕ → String → Option Markup → List Action
  send_chunks chat text markup = send_all chat (source_chunks (codes text)) markup

  -- `_deliver`
  unfoldable pub deliver : ℕ → List String → String → Bool → List Action
  unfolding send_chunks
  deliver chat [] text allow_custom =
      if text == "" then [] else send_chunks chat text (feedback_keyboard b.span_id)
  deliver chat (o ∷ os) text allow_custom =
      send_chunks chat text (some (clarify_keyboard (o ∷ os) allow_custom))

  -- An agent's turn, delivered
  delivered : ℕ → Option Result → List Action
  unfolding say
  delivered chat none = say chat "Что-то пошло не так, попробуйте ещё раз." ∷ []
  delivered chat (some r) = deliver chat r.options r.text r.allow_custom

  -- `_run_and_deliver`
  unfoldable pub run_and_deliver : ℕ → ℕ → String → String → Side → Done
  unfolding delivered
  run_and_deliver user_id chat text image s =
      let turn = handle b.agent user_id b.now text image s.buckets s.store in
      (delivered chat turn.result, record { buckets = turn.buckets; store = turn.store })

  -- The preferences as they are shown
  shown_preferences : ℕ → Side → List (String × String)
  shown_preferences user_id s =
      map (λ p. (p.key, p.value)) (preferences_of b.agent.ahead user_id s.store)

  -- `_show_memory`
  show_memory : ℕ → ℕ → Side → Done
  unfolding shown_preferences
  show_memory user_id chat s =
      let page = render_memory (shown_preferences user_id s) in
      (send chat (codes (page.0)) (page.1) ∷ [], s)

  -- The end of `_on_message`
  with_text : ℕ → ℕ → String → String → Side → Done
  unfolding say
  with_text user_id chat text image s =
      let run = run_and_deliver user_id chat text image s in
      if text == ""
      then (if image == "" then (say chat "Я понимаю текст и фотографии." ∷ [], s) else run)
      else run

  -- `_on_message`
  unfoldable pub on_message : ℕ → Message → Option Photo → Side → Done
  unfolding with_text or_empty say
  on_message user_id m none s = with_text user_id m.chat (or_empty m.text) "" s
  on_message user_id m (some (loaded uri)) s = with_text user_id m.chat (or_empty m.caption) uri s
  on_message user_id m (some too_large) s = (
    say m.chat
          "Фото слишком большое (более 20 МБ). Пришлите файл поменьше или задайте вопрос текстом."
        ∷ [],
    s,
  )
  on_message user_id m (some fails) s =
      (say m.chat "Что-то пошло не так, попробуйте ещё раз." ∷ [], s)
