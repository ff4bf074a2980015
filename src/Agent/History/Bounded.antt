-- ===== src/Agent/History/Bounded.antt =====
-- What the model is given of the turns since the summary: a part of the oldest 400, cut just if they
-- are many and long.
use mathlib.Core.Logic.{◌⊎◌}
use mathlib.Core.List.{append_assoc}
use chic_mcp.Prelude.{
  ℕ, zero, suc, ◌-◌, ◌≤◌, ◌<◌, ◌≡◌, refl, sym, subst, ap, ◌∙◌, true, false, ◌||◌, List, [], ◌∷◌,
  ◌++◌, map, take, drop, length, length-drop, take-append-drop, String, leb, ◌==◌, string_eq,
  Bool-cases, inl, inr, arith,
}
use chic_mcp.Prelude.Int.{ℤ, pos}
use chic_mcp.Store.Chat.{
  Message, MessageRow, Store, to_message, messages_since, get_session_summary,
}
use chic_mcp.Agent.History.{
  summary_keep_recent, max_unsummarized_scan, total_chars, watermark, condense_tail,
  condense_history,
}
use chic_mcp.Agent.History.Rising.{turn_rows, turns_since}

-- The whole tail, which is within the budget or at most six long, or the last six messages of a
-- longer one beyond the budget, with those before them
abbrev pub IsCut : ℕ → List Message → List Message → Type 0
IsCut budget folded kept =
    ((folded ≡ []) × ((total_chars kept ≤ budget) ⊎ (length kept ≤ summary_keep_recent)))
    ⊎ ((length kept ≡ summary_keep_recent) × (budget < total_chars (folded ++ kept)))

-- The messages, with those folded before them and those beyond the scan after them, are the turns.
abbrev pub IsBounded : ℕ → List Message → List Message → Type 0
IsBounded budget turns kept =
    (folded : List Message) × (later : List Message) × (folded ++ (kept ++ later) ≡ turns)
    × (length later ≡ length turns - max_unsummarized_scan)
    × IsCut budget folded kept

-- The same of the scanned messages alone
abbrev IsCutOf : ℕ → List Message → List Message → Type 0
IsCutOf budget tail kept =
    (folded : List Message) × (folded ++ kept ≡ tail) × IsCut budget folded kept

short_fits : (a b c d : ℕ) → leb a b || leb c d ≡ true → (a ≤ b) ⊎ (c ≤ d)
short_fits a b c d h = ground arith

long_over : (a b c d : ℕ) → leb a b || leb c d ≡ false → (b < a) × (d < c)
long_over a b c d h = ground arith

last_six :
    (budget : ℕ) (tail : List Message)
    → budget < total_chars tail
    → summary_keep_recent < length tail
    → IsCutOf budget tail (drop (length tail - summary_keep_recent) tail)
last_six budget tail over long =
    let n = length tail - summary_keep_recent in
    let parts = take-append-drop n tail in
    (
      take n tail,
      parts,
      inr (omega (arith, length-drop n tail), subst (λ l. budget < total_chars l) (sym parts) over),
    )

module _ (summarize : String → List Message → String) (budget user_id epoch : ℕ) where
  condense_tail-IsCutOf :
      (summary : String) (tail : List Message) (s : Store)
      → IsCutOf budget tail ((condense_tail summarize budget user_id epoch summary tail s).1)
  unfolding condense_tail
  condense_tail-IsCutOf summary tail s =
      let folded = take (length tail - summary_keep_recent) tail in
      elim (Bool-cases (leb (total_chars tail) budget || leb (length tail) summary_keep_recent)) [
        | inl short ↦
            rw (short, condense_tail)
              (
                [],
                refl,
                inl (
                  refl,
                  short_fits (total_chars tail) budget (length tail) summary_keep_recent short,
                ),
              )
        | inr long ↦
            let over = long_over (total_chars tail) budget (length tail) summary_keep_recent long in
            let cut = last_six budget tail over.0 over.1 in
            elim (Bool-cases (summarize summary folded == "")) [
              | inl failed ↦ rw (long, failed, condense_tail) cut
              | inr made ↦ rw (long, made, condense_tail) cut
            ]
      ]

  -- With a budget that is on, the turns since the summary's watermark are some that are folded, then
  -- the history for the model, then those beyond the 400 oldest, which it does not get. It folds none
  -- and is within the budget or at most six messages long, or the 400 exceed the budget and it has
  -- the last six of them, whether or not the model answers.
  pub condense_history-IsBounded :
      (history_depth : ℤ) (s : Store)
      → IsBounded budget
          (turns_since user_id (watermark ((get_session_summary user_id epoch s).1) epoch) s)
          ((condense_history summarize (pos budget) history_depth user_id epoch s).1)
  unfolding condense_history messages_since
  condense_history-IsBounded history_depth s =
      let mark = watermark ((get_session_summary user_id epoch s).1) epoch in
      let rows = turn_rows user_id mark s.messages in
      let scan = scan_split max_unsummarized_scan rows in
      let cut =
        condense_tail-IsCutOf ((get_session_summary user_id epoch s).0)
          (messages_since user_id mark (pos max_unsummarized_scan) s) s in
      (
        cut.0,
        map to_message (drop max_unsummarized_scan rows),
        sym (append_assoc (cut.0) _ _)
            ∙ ap (λ l. l ++ map to_message (drop max_unsummarized_scan rows)) (cut.1)
            ∙ scan.0,
        scan.1,
        cut.2,
      )
    where
      scan_split :
          (n : ℕ) (ms : List MessageRow)
          → (map to_message (take n ms) ++ map to_message (drop n ms) ≡ map to_message ms)
            × (length (map to_message (drop n ms)) ≡ length (map to_message ms) - n)
      scan_split zero ms = (refl, omega arith)
      scan_split (suc n) [] = (refl, omega arith)
      scan_split (suc n) (m ∷ ms) =
          (ap (◌∷◌ (to_message m)) (scan_split n ms).0, omega (arith, (scan_split n ms).1))
