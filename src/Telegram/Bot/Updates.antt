-- ===== src/Telegram/Bot/Updates.antt =====
-- What an update does, in the bot of chic/telegram/bot.py: the commands, the buttons, the router, the
-- allowlist and `feed_update`.
use Prim.Native.String.{◌++◌}
use mathlib.Core.List
use chic_mcp.Prelude.{
  ℕ, Bool, true, false, Option, none, some, List, [], ◌∷◌, String, get_elem?, ◌==◌, nat_eq,
  string_eq, if◌then◌else◌,
}
use chic_mcp.Prelude.Sets.{contains}
use chic_mcp.Prelude.Text.{codes}
use chic_mcp.Prelude.Words.{after_prefix, strip}
use chic_mcp.Store.Chat.{Preference, preferences_of, delete_preference}
use chic_mcp.Agent.Turn.{reset}
use chic_mcp.Telegram.Dedupe.{Dedupe, first_seen}
use chic_mcp.Telegram.Keyboards.{
  mem_forget_prefix, clarify_custom, index_from_callback, menu_keyboard, template_by_callback,
  render_memory, parse_feedback, button_label,
}
use chic_mcp.Telegram.Bot.{
  Command, menu, memory, new, other, Message, message, Shown, Origin, nowhere, inaccessible,
  accessible, Press, press, Event, Action, send, answer_press, drop_keyboard, edit, rate, Side,
  Done, say, Setup, or_empty, before, run_and_deliver, shown_preferences, show_memory, on_message,
}

-- `cb.message.chat.id if cb.message else 0`
chat_of : Origin → ℕ
chat_of nowhere = 0
chat_of (inaccessible chat) = chat
chat_of (accessible m) = m.chat

-- The message, if it `isinstance(cb.message, Message)`
unfoldable pub shown_of : Origin → Option Shown
shown_of nowhere = none
shown_of (inaccessible chat) = none
shown_of (accessible m) = some m

drop_of : Option Shown → List Action
drop_of none = []
drop_of (some m) = drop_keyboard ∷ []

-- The text of `_mark_answered`
unfoldable pub answered : String → String → String
answered question choice =
    if question == "" then "✅ " ++ choice else question ++ "\n\n" ++ "✅ " ++ choice

-- The preference at an index is forgotten, if there is one.
forget_at : ℕ → Option Preference → Side → Side
forget_at user_id none s = s
forget_at user_id (some p) s = record {
  buckets = s.buckets;
  store = delete_preference user_id p.key s.store;
}

-- `F.data.startswith(prefix)`
unfoldable pub starts : String → Option String → Bool
starts prefix none = false
starts prefix (some callback) = elim (after_prefix prefix callback) as (λ x. Bool) [
  | none ↦ false
  | some rest ↦ true
]

unfoldable pub user_of : Event → Option ℕ
user_of (message m) = m.from_user
user_of (press p) = some p.from_user

-- What a stranger gets
unfoldable pub turned_away : Event → List Action
unfolding say
turned_away (message m) = say m.chat "Извините, этот бот приватный." ∷ []
turned_away (press p) = answer_press "" ∷ []

-- What a first update did, before what the others did
unfoldable pub follow : List Action → Option (Done × Dedupe) → Option (Done × Dedupe)
follow actions none = none
follow actions (some ((more, s), d)) = some ((List.◌++◌ actions more, s), d)

module _ (b : Setup) where
  -- The message router
  unfoldable pub on_command : ℕ → Message → Command → Side → Done
  unfolding say show_memory
  on_command user_id m menu s = (
    send m.chat (codes "Выберите готовый вопрос или напишите свой:") (some menu_keyboard) ∷ [],
    s,
  )
  on_command user_id m memory s = show_memory b user_id m.chat s
  on_command user_id m new s = (
    say m.chat "🆕 Начали заново — прошлый диалог больше не учитывается." ∷ [],
    record { buckets = s.buckets; store = reset user_id s.store },
  )
  on_command user_id m other s = on_message b user_id m m.photo s

  -- `_cb_feedback`
  unfoldable pub on_feedback : Press → Option (String × String) → List Action
  unfolding chat_of drop_of shown_of
  on_feedback p none = answer_press "" ∷ []
  on_feedback p (some (rating, span)) =
      answer_press "Спасибо за оценку 🙏"
      ∷ List.◌++◌
          (if b.has_feedback then rate span rating p.from_user (chat_of p.message) ∷ [] else [])
          (drop_of (shown_of p.message))

  -- `_cb_quick`
  unfoldable pub on_quick : Press → Option String → Option Shown → Side → Done
  unfolding before say
  on_quick p none shown s = (answer_press "" ∷ [], s)
  on_quick p (some question) none s = (answer_press "" ∷ [], s)
  on_quick p (some question) (some m) s =
      before (answer_press "" ∷ say m.chat ("❓ " ++ question) ∷ [])
        (run_and_deliver b p.from_user m.chat question "" s)

  -- `_cb_clarify`
  unfoldable pub on_clarify : Press → Option Shown → Side → Done
  unfolding before say answered or_empty
  on_clarify p none s = (answer_press "" ∷ [], s)
  on_clarify p (some m) s =
      let callback = or_empty p.callback in
      let label = button_label m.reply_markup callback in
      if callback == clarify_custom
      then (answer_press "" ∷ drop_keyboard ∷ say m.chat "Напишите свой вариант ответом 👇" ∷ [], s)
      else if label == ""
      then (answer_press "" ∷ drop_keyboard ∷ [], s)
      else before (answer_press "" ∷ edit (answered (strip (or_empty m.text)) label) none ∷ [])
          (run_and_deliver b p.from_user m.chat label "" s)

  forget_press : ℕ → Option ℕ → Side → Done
  unfolding forget_at shown_preferences
  forget_press user_id none s = (answer_press "" ∷ [], s)
  forget_press user_id (some i) s =
      let s' = forget_at user_id (get_elem? (preferences_of b.agent.ahead user_id s.store) i) s in
      let page = render_memory (shown_preferences b user_id s') in
      (answer_press "" ∷ edit (page.0) (page.1) ∷ [], s')

  -- `_cb_memory_forget`
  unfoldable pub on_forget : Press → Option Shown → Side → Done
  unfolding forget_press or_empty
  on_forget p none s = (answer_press "" ∷ [], s)
  on_forget p (some m) s =
      forget_press p.from_user (index_from_callback (or_empty p.callback) mem_forget_prefix) s

  -- The router
  unfoldable pub route : Event → Side → Done
  unfolding starts or_empty shown_of
  route (message m) s = elim m.from_user as (λ x. Done) [
    | some user_id ↦ on_command user_id m m.command s
    | none ↦ elim m.command as (λ x. Done) [
      | menu ↦ on_command 0 m menu s
      | memory ↦ ([], s)
      | new ↦ ([], s)
      | other ↦ ([], s)
    ]
  ]
  route (press p) s =
      if starts "fb:" p.callback
      then (on_feedback p (parse_feedback (or_empty p.callback)), s)
      else if starts "ask:" p.callback
      then on_quick p (template_by_callback (or_empty p.callback)) (shown_of p.message) s
      else if starts "cq:" p.callback
      then on_clarify p (shown_of p.message) s
      else if starts "mf:" p.callback
      then on_forget p (shown_of p.message) s
      else ([], s)

  -- `user is not None and user.id in allowed`
  unfoldable pub is_allowed : Option ℕ → Bool
  is_allowed none = false
  is_allowed (some user_id) = contains b.allowed user_id

  -- `_allowlist`
  unfoldable pub allowlist : Event → Side → Done
  unfolding is_allowed turned_away
  allowlist e s = if is_allowed (user_of e) then route e s else (turned_away e, s)

  -- `feed_update`; an IndexError of the ring is no result.
  unfoldable pub feed_update : ℕ × Event → Dedupe → Side → Option (Done × Dedupe)
  feed_update (update_id, e) d s = elim (first_seen d update_id) as (λ x. Option (Done × Dedupe)) [
    | none ↦ none
    | some (d', fresh) ↦ some ((if fresh then allowlist e s else ([], s)), d')
  ]

  -- Updates as the webhook meets them, one after another
  unfoldable pub feed_all : List (ℕ × Event) → Dedupe → Side → Option (Done × Dedupe)
  unfolding follow
  feed_all [] d s = some (([], s), d)
  feed_all (u ∷ us) d s = elim (feed_update u d s) as (λ x. Option (Done × Dedupe)) [
    | none ↦ none
    | some ((actions, s'), d') ↦ follow actions (feed_all us d' s')
  ]
