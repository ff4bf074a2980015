-- ===== src/Telegram/Bot/Choice.antt =====
-- The way of a choice: from the options of a question to the agent's next message.
use Prim.Native.String.{◌++◌}
use chic_mcp.Prelude.{
  ℕ, ◌≡◌, ◌≢◌, refl, ap, ◌∙◌, Bool, true, false, none, some, List, [], ◌∷◌, String, get_elem?, ◌==◌,
  string_eq, Bool-cases, inl, inr,
}
use chic_mcp.Prelude.Text.{
  codes, parse_int, parse_signed, parse_digits, strip as strip_text, strip_left, strip_right,
}
use chic_mcp.Prelude.Words.{after_prefix, strip}
use chic_mcp.Prelude.Decimal.{show, parse_int-show}
use chic_mcp.Telegram.Keyboards.{clarify_prefix, clarify_custom, clarify_keyboard, button_label}
use chic_mcp.Telegram.Keyboards.Presses.{
  after_prefix-append, after_prefix_differs, button_label-clarify_keyboard,
}
use chic_mcp.Telegram.Bot.{
  press, Shown, accessible, answer_press, edit, Side, Setup, or_empty, before, run_and_deliver,
}
use chic_mcp.Telegram.Bot.Updates.{shown_of, starts, answered, on_clarify, route}

not_custom_number : (i : ℕ) → show i ≢ "custom"
unfolding parse_int strip_text strip_left strip_right parse_signed parse_digits
not_custom_number i e = cc (parse_int-show i, ap (λ s. parse_int (codes s)) e)

custom_rest : after_prefix clarify_prefix clarify_custom ≡ some "custom"
unfolding after_prefix
custom_rest = refl

not_custom : (i : ℕ) → clarify_prefix ++ show i == clarify_custom ≡ false
not_custom i = elim (Bool-cases (clarify_prefix ++ show i == clarify_custom)) [
  | inr no_match ↦ no_match
  | inl same ↦
      let e = (string_eq.same_iff (clarify_prefix ++ show i) clarify_custom).0 same in
      absurd (
        not_custom_number i (
          cc (
            after_prefix-append clarify_prefix (show i),
            ap (after_prefix clarify_prefix) e,
            custom_rest,
          )))
]

starts-clarify :
    (rest : String)
    → (starts "fb:" (some (clarify_prefix ++ rest)) ≡ false)
      × (starts "ask:" (some (clarify_prefix ++ rest)) ≡ false)
      × (starts "cq:" (some (clarify_prefix ++ rest)) ≡ true)
unfolding starts
starts-clarify rest = (
  rw (starts, after_prefix_differs "f" "c" "b:" "q:" rest refl) refl,
  rw (starts, after_prefix_differs "a" "c" "sk:" "q:" rest refl) refl,
  rw (starts, after_prefix-append clarify_prefix rest) refl,
)

module _ (b : Setup) where
  -- If the user presses the button of a question's i-th option, which is not empty, the question is
  -- marked with that option and the agent is run with the option as the user's message.
  pub route-Choice :
      (user_id i : ℕ) (m : Shown) (options : List String) (allow_custom : Bool) (text : String)
      (s : Side)
      → m.reply_markup ≡ some (clarify_keyboard options allow_custom)
      → get_elem? options i ≡ some text
      → text == "" ≡ false
      → route b
          (press (record {
            from_user = user_id;
            callback = some (clarify_prefix ++ show i);
            message = accessible m;
          }))
          s
        ≡ before
            (answer_press "" ∷ edit (answered (strip (or_empty m.text)) text) none ∷ [])
            (run_and_deliver b user_id m.chat text "" s)
  unfolding route on_clarify or_empty shown_of
  route-Choice user_id i m options allow_custom text s shown chosen filled =
      let tests = starts-clarify (show i) in
      let label =
        ap (λ k. button_label k (clarify_prefix ++ show i)) shown
        ∙ button_label-clarify_keyboard options allow_custom i text chosen in
      rw (tests.0, tests.1, tests.2, not_custom i, label, filled) refl
