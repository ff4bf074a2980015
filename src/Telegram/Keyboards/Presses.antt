-- ===== src/Telegram/Keyboards/Presses.antt =====
-- A press of a button is understood as the button was meant.
use Prim.Native.String.{◌++◌}
use Prim.Native.String.append.{nil, cons}
use Prim.Native.Char.{Char, code}
use mathlib.Core.List
use chic_mcp.Prelude.{
  ℕ, zero, suc, ◌+◌, ◌<◌, ◌≡◌, refl, ap, ◌∙◌, Bool, false, none, some, List, [], ◌∷◌, map, String,
  get_elem?, nat_beq, nat_beq_iff, ◌==◌, string_eq, Bool-cases, inl, inr, arith,
}
use chic_mcp.Prelude.Words.{after_prefix}
use chic_mcp.Prelude.Decimal.{show, show_injective, parse_int-show}
use chic_mcp.Telegram.Keyboards.Templates.{question_templates}
use chic_mcp.Telegram.Keyboards.{
  Markup, quick_prefix, clarify_prefix, feedback_like, feedback_dislike, not_negative,
  index_from_callback, indexed, enumerate, template_by_callback, one_per_row, clarify_keyboard,
  rated, parse_feedback, label_in_row, label_in_rows, text_or_empty, button_label,
}

pub after_prefix-append : (p s : String) → after_prefix p (p ++ s) ≡ some s
unfolding after_prefix
after_prefix-append String.[] s = ap some (λ i. nil s i)
after_prefix-append (String.◌∷◌ c p) s =
    ap (after_prefix (String.◌∷◌ c p)) (λ i. cons c p s i)
    ∙ rw ((nat_beq_iff (code c) (code c)).1 refl) (after_prefix-append p s)

after_prefix-skip :
    (c : Char) (p q s : String)
    → after_prefix (String.◌∷◌ c p) (String.◌∷◌ c q ++ s) ≡ after_prefix p (q ++ s)
unfolding after_prefix
after_prefix-skip c p q s =
    ap (after_prefix (String.◌∷◌ c p)) (λ i. cons c q s i)
    ∙ rw ((nat_beq_iff (code c) (code c)).1 refl) refl

pub after_prefix_differs :
    (c d : Char) (p q s : String)
    → nat_beq (code c) (code d) ≡ false
    → after_prefix (String.◌∷◌ c p) (String.◌∷◌ d q ++ s) ≡ none
unfolding after_prefix
after_prefix_differs c d p q s h =
    ap (after_prefix (String.◌∷◌ c p)) (λ i. cons d q s i) ∙ rw h refl

dislike_no_like : (span : String) → after_prefix feedback_like (feedback_dislike ++ span) ≡ none
dislike_no_like span =
    after_prefix-skip "f" "b:l:" "b:d:" span
    ∙ after_prefix-skip "b" ":l:" ":d:" span
    ∙ after_prefix-skip ":" "l:" "d:" span
    ∙ after_prefix_differs "l" "d" ":" ":" span refl

-- The index that a button carries is read back from its callback data.
index_from_callback-show :
    (prefix : String) (i : ℕ) → index_from_callback (prefix ++ show i) prefix ≡ some i
unfolding index_from_callback
index_from_callback-show prefix i =
    rw (index_from_callback, after_prefix-append prefix (show i))
      (ap not_negative (parse_int-show i))

-- Different indices make different callback data.
callback_injective : (prefix : String) (i j : ℕ) → prefix ++ show i ≡ prefix ++ show j → i ≡ j
callback_injective prefix i j e = show_injective i j (
    cc (
      after_prefix-append prefix (show i),
      after_prefix-append prefix (show j),
      ap (after_prefix prefix) e,
    ))

callback_other : (prefix : String) (i j : ℕ) → i < j → prefix ++ show i == prefix ++ show j ≡ false
callback_other prefix i j h = elim (Bool-cases (prefix ++ show i == prefix ++ show j)) [
  | inr no_match ↦ no_match
  | inl same ↦
      let e =
        callback_injective prefix i j
          ((string_eq.same_iff (prefix ++ show i) (prefix ++ show j)).0 same) in
      absurd (omega arith)
]

-- The texts of the menu's buttons are found again among the rows of one button each.
label-enumerate :
    (prefix : String) (k i j : ℕ) (texts : List String) (more : Markup) (text : String)
    → k + i ≡ j
    → get_elem? texts i ≡ some text
    → label_in_rows (List.◌++◌ (one_per_row (enumerate prefix k texts)) more) (prefix ++ show j)
      ≡ some text
unfolding label_in_rows enumerate one_per_row indexed
label-enumerate prefix k i j [] more text e h = absurd (cc)
label-enumerate prefix k zero j (t ∷ ts) more text e h =
    let place : k ≡ j = omega arith in
    rw
      (
        label_in_rows,
        label_in_row,
        (string_eq.same_iff (prefix ++ show k) (prefix ++ show j)).1
            (ap (λ n. prefix ++ show n) place),
      )
      h
label-enumerate prefix k (suc i) j (t ∷ ts) more text e h =
    rw (label_in_rows, label_in_row, callback_other prefix k j (omega arith))
      (label-enumerate prefix (suc k) i j ts more text (omega arith) h)

-- A press of the button of the i-th option of a clarifying question stands for that option, whether
-- or not a free answer is offered.
pub button_label-clarify_keyboard :
    (options : List String) (allow_custom : Bool) (i : ℕ) (text : String)
    → get_elem? options i ≡ some text
    → button_label (some (clarify_keyboard options allow_custom)) (clarify_prefix ++ show i) ≡ text
unfolding button_label clarify_keyboard
button_label-clarify_keyboard options allow_custom i text h =
    ap text_or_empty (label-enumerate clarify_prefix 0 i i options _ text (omega arith) h)

-- A press of the i-th button of the menu asks the i-th question.
pub template_by_callback-show :
    (i : ℕ)
    → template_by_callback (quick_prefix ++ show i)
      ≡ get_elem? (map (λ t. t.1) question_templates) i
unfolding template_by_callback
template_by_callback-show i =
    rw (template_by_callback, index_from_callback-show quick_prefix i) refl

-- The last button of a question with a free answer, and the two of a rating, are told apart from
-- the others by what stands behind their prefix.
pub parse_feedback-append :
    (span : String)
    → span == "" ≡ false
    → (parse_feedback (feedback_like ++ span) ≡ some ("like", span))
      × (parse_feedback (feedback_dislike ++ span) ≡ some ("dislike", span))
unfolding parse_feedback rated
parse_feedback-append span h = (
  rw (parse_feedback, after_prefix-append feedback_like span, h) refl,
  rw (parse_feedback, dislike_no_like span, after_prefix-append feedback_dislike span, h) refl,
)
