-- ===== src/Telegram/Keyboards.antt =====
-- Inline keyboards and their callback data, chic/telegram/keyboards.py. A button with an option or a
-- preference carries its index.
pub mod Templates
pub mod Presses
use Prim.Native.Char.{Char, code}
use Prim.Native.String.{◌++◌}
use mathlib.Core.List
use chic_mcp.Prelude.{
  ℕ, suc, Bool, true, false, Option, none, some, List, [], ◌∷◌, map, String, get_elem?, ltb, ◌==◌,
  nat_eq, string_eq, if◌then◌else◌,
}
use chic_mcp.Prelude.Int.{ℤ, pos, negsuc}
use chic_mcp.Prelude.Text.{codes, parse_int}
use chic_mcp.Prelude.Words.{after_prefix}
use chic_mcp.Prelude.Decimal.{show}
use chic_mcp.Telegram.Keyboards.Templates.{question_templates}

abbrev pub quick_prefix : String
quick_prefix = "ask:"

abbrev pub mem_forget_prefix : String
mem_forget_prefix = "mf:"

abbrev pub clarify_prefix : String
clarify_prefix = "cq:"

abbrev pub clarify_custom : String
clarify_custom = "cq:custom"

abbrev pub feedback_like : String
feedback_like = "fb:l:"

abbrev pub feedback_dislike : String
feedback_dislike = "fb:d:"

-- `InlineKeyboardButton`, `InlineKeyboardMarkup`
pub record Button : Type 0 where
  pub text : String
  pub callback_data : String

abbrev pub Markup : Type 0
Markup = List (List Button)

-- `idx if idx >= 0 else None`, where `int` may raise a ValueError
not_negative : Option ℤ → Option ℕ
not_negative none = none
not_negative (some (pos n)) = some n
not_negative (some (negsuc n)) = none

-- `index_from_callback`
unfoldable pub index_from_callback : String → String → Option ℕ
unfolding not_negative
index_from_callback data_text prefix = elim (after_prefix prefix data_text) as (λ x. Option ℕ) [
  | none ↦ none
  | some rest ↦ not_negative (parse_int (codes rest))
]

-- A button that carries an index
unfoldable pub indexed : String → ℕ → String → Button
indexed prefix i text = record { text = text; callback_data = prefix ++ show i }

-- `for i, text in enumerate(texts)`
unfoldable pub enumerate : String → ℕ → List String → List Button
enumerate prefix i [] = []
enumerate prefix i (text ∷ texts) = indexed prefix i text ∷ enumerate prefix (suc i) texts

-- `[buttons[i : i + 2] for i in range(0, len(buttons), 2)]`
unfoldable pub two_per_row : List Button → Markup
two_per_row [] = []
two_per_row (b ∷ []) = (b ∷ []) ∷ []
two_per_row (b ∷ c ∷ bs) = (b ∷ c ∷ []) ∷ two_per_row bs

-- `menu_keyboard`
unfoldable pub menu_keyboard : Markup
unfolding enumerate two_per_row
menu_keyboard = two_per_row (enumerate quick_prefix 0 (map (λ t. t.0) question_templates))

-- `template_by_callback`
unfoldable pub template_by_callback : String → Option String
template_by_callback data_text =
    elim (index_from_callback data_text quick_prefix) as (λ x. Option String) [
      | none ↦ none
      | some i ↦ get_elem? (map (λ t. t.1) question_templates) i
    ]

-- `html.escape`
escape_char : Char → String
escape_char c =
    if code c == 38
    then "&amp;"
    else if code c == 60
    then "&lt;"
    else if code c == 62
    then "&gt;"
    else if code c == 34
    then "&quot;"
    else if code c == 39
    then "&#x27;"
    else String.◌∷◌ c String.[]

unfoldable pub escape : String → String
unfolding escape_char
escape String.[] = String.[]
escape (String.◌∷◌ c s) = escape_char c ++ escape s

-- The rows of `render_memory`, one below the other
memory_lines : List (String × String) → String
memory_lines [] = ""
memory_lines ((key, value) ∷ items) =
    "\n• <b>" ++ escape key ++ "</b>: " ++ escape value ++ memory_lines items

one_per_row : List Button → Markup
one_per_row bs = map (λ b. b ∷ []) bs

-- `render_memory`
unfoldable pub render_memory : List (String × String) → String × Option Markup
unfolding memory_lines one_per_row
render_memory [] = (
  "🧠 Пока я не запомнил никаких ваших предпочтений.\n\nКогда вы зададите устойчивое пожелание (язык общения, формат ответов, основной склад…), я сохраню его и покажу здесь.",
  none,
)
render_memory (item ∷ items) = (
  "🧠 <b>Что я о вас помню</b>\n\nНажмите 🗑, чтобы удалить пункт.\n" ++ memory_lines (item ∷ items),
  some (one_per_row (enumerate mem_forget_prefix 0 (map (λ p. "🗑 " ++ p.0) (item ∷ items)))),
)

-- `clarify_keyboard`
unfoldable pub clarify_keyboard : List String → Bool → Markup
unfolding one_per_row
clarify_keyboard options allow_custom =
    List.◌++◌ (one_per_row (enumerate clarify_prefix 0 options)) (
      if allow_custom
      then (record { text = "✏\u{fe0f} Свой вариант"; callback_data = clarify_custom } ∷ []) ∷ []
      else [])

-- `feedback_keyboard`
unfoldable pub feedback_keyboard : String → Option Markup
feedback_keyboard span_id =
    if span_id == ""
    then none
    else some (
        (record { text = "👍"; callback_data = feedback_like ++ span_id }
          ∷ record { text = "👎"; callback_data = feedback_dislike ++ span_id }
          ∷ [])
        ∷ [])

-- A rating and the span it is for, if there is one
rated : String → String → Option (String × String)
rated rating span = if span == "" then none else some (rating, span)

-- `parse_feedback`
unfoldable pub parse_feedback : String → Option (String × String)
unfolding rated
parse_feedback data_text =
    elim (after_prefix feedback_like data_text) as (λ x. Option (String × String)) [
      | some span ↦ rated "like" span
      | none ↦ elim (after_prefix feedback_dislike data_text) as (λ x. Option (String × String)) [
        | some span ↦ rated "dislike" span
        | none ↦ none
      ]
    ]

-- The first button of a row with some callback data
label_in_row : List Button → String → Option String
label_in_row [] data_text = none
label_in_row (b ∷ bs) data_text =
    if b.callback_data == data_text then some b.text else label_in_row bs data_text

label_in_rows : Markup → String → Option String
unfolding label_in_row
label_in_rows [] data_text = none
label_in_rows (row ∷ rows) data_text = elim (label_in_row row data_text) as (λ x. Option String) [
  | some text ↦ some text
  | none ↦ label_in_rows rows data_text
]

text_or_empty : Option String → String
text_or_empty none = ""
text_or_empty (some text) = text

-- `button_label`
unfoldable pub button_label : Option Markup → String → String
unfolding label_in_rows text_or_empty
button_label none data_text = ""
button_label (some rows) data_text = text_or_empty (label_in_rows rows data_text)
