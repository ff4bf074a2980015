-- ===== src/Agent/History/Continued.antt =====
-- A fold neither loses a message nor folds one twice.
use mathlib.Core.Logic.{◌⊎◌}
use chic_mcp.Prelude.{
  ℕ, zero, suc, ◌-◌, ◌≤◌, ◌<◌, ◌≡◌, refl, ap, ◌∙◌, false, ◌||◌, List, [], ◌∷◌, ◌++◌, map, take,
  length, String, leb, ◌==◌, string_eq, nat_eq, pair_eq, Bool-cases, inl, inr, arith,
}
use chic_mcp.Prelude.Int.{ℤ, pos}
use chic_mcp.Prelude.Dict.{get-put}
use chic_mcp.Store.Chat.{
  Message, MessageRow, Store, to_message, messages_since, get_session_summary, put_session_summary,
}
use chic_mcp.Agent.History.{
  summary_keep_recent, max_unsummarized_scan, total_chars, last_id, watermark, condense_tail,
  condense_history,
}
use chic_mcp.Agent.History.Rising.{
  IsRising, turn_rows, turns_since, turn_rows-above, fold_rest, fold_above, fold_parts,
  All-turn_rows, turn_rows-IsRising,
}

-- Where the stored summary of a session ends
abbrev pub mark_of : ℕ → ℕ → Store → ℕ
mark_of u epoch s = watermark ((get_session_summary u epoch s).1) epoch

-- The messages since the stored summary are some that were folded, if any, and then those since the
-- new one; the store is as it was, or exactly they were summarized; and the summary is the stored one.
abbrev pub IsContinued :
    (String → List Message → String) → ℕ → ℕ → Store → String × List Message × Store → Type 0
IsContinued summarize u epoch s r =
    ((folded : List Message) × (folded ++ turns_since u (mark_of u epoch (r.2)) (r.2)
        ≡ turns_since u (mark_of u epoch s) s)
      × (((r.2) ≡ s) ⊎ (r.0 ≡ summarize ((get_session_summary u epoch s).0) folded)))
    × ((get_session_summary u epoch (r.2)).0 ≡ r.0)

summary_after :
    (u epoch id : ℕ) (next : String) (s : Store)
    → get_session_summary u epoch (put_session_summary u epoch next id s) ≡ (next, id)
unfolding get_session_summary put_session_summary
summary_after u epoch id next s =
    ground (arith, get-put s.summaries (u, epoch) (u, epoch) (next, id))

turns_after :
    (u epoch id k : ℕ) (next : String) (s : Store)
    → turns_since u k (put_session_summary u epoch next id s) ≡ turns_since u k s
unfolding put_session_summary
turns_after u epoch id k next s = refl

watermark-le : (a e : ℕ) → e ≤ watermark a e
unfolding watermark
watermark-le a e = ground arith

watermark_above : (a e : ℕ) → e ≤ a → watermark a e ≡ a
unfolding watermark
watermark_above a e h = ground arith

-- The folded messages, when all but the last few of a scan are folded
abbrev folded_of : ℕ → ℕ → ℕ → ℕ → Store → List Message
folded_of u epoch j n s =
    take j (map to_message (take n (turn_rows u (mark_of u epoch s) s.messages)))

module _ (u epoch j n : ℕ) (next : String) (s : Store) (p : 0 < j) (q : j ≤ n)
    (h : j ≤ length (turn_rows u (mark_of u epoch s) s.messages)) (r : IsRising s.messages) where
  fold_le : mark_of u epoch s ≤ last_id (folded_of u epoch j n s)
  fold_le =
      fold_above (mark_of u epoch s) j n (turn_rows u (mark_of u epoch s) s.messages) p q h
        (All-turn_rows u (mark_of u epoch s) s.messages)
        (turn_rows-IsRising u (mark_of u epoch s) s.messages r)

  mark_after :
      mark_of u epoch (put_session_summary u epoch next (last_id (folded_of u epoch j n s)) s)
      ≡ last_id (folded_of u epoch j n s)
  mark_after =
      ap (λ x. watermark (x.1) epoch)
        (summary_after u epoch (last_id (folded_of u epoch j n s)) next s)
      ∙ watermark_above (last_id (folded_of u epoch j n s)) epoch
          (omega (arith, fold_le, watermark-le ((get_session_summary u epoch s).1) epoch))

  fold_continued :
      folded_of u epoch j n s
        ++ turns_since u
            (mark_of u epoch
              (put_session_summary u epoch next (last_id (folded_of u epoch j n s)) s))
            (put_session_summary u epoch next (last_id (folded_of u epoch j n s)) s)
      ≡ turns_since u (mark_of u epoch s) s
  fold_continued =
      ap (λ x. folded_of u epoch j n s ++ x)
        (turns_after u epoch (last_id (folded_of u epoch j n s)) _ next s
          ∙ ap (λ i. turns_since u i s) mark_after
          ∙ ap (map to_message) (
              turn_rows-above u (mark_of u epoch s) (last_id (folded_of u epoch j n s)) s.messages
                fold_le
              ∙ fold_rest j n (turn_rows u (mark_of u epoch s) s.messages) p q h
                  (turn_rows-IsRising u (mark_of u epoch s) s.messages r)))
      ∙ fold_parts j n (turn_rows u (mark_of u epoch s) s.messages) q

scan_length :
    (n : ℕ) (ms : List MessageRow)
    → (length (map to_message (take n ms)) ≤ n) × (length (map to_message (take n ms)) ≤ length ms)
scan_length zero ms = omega arith
scan_length (suc n) [] = omega arith
scan_length (suc n) (m ∷ ms) = omega (arith, scan_length n ms)

scan_over : (a b c d : ℕ) → leb a b || leb c d ≡ false → d < c
scan_over a b c d h = ground arith

module _ (summarize : String → List Message → String) (budget u epoch : ℕ) (depth : ℤ) where
  -- If the ids of the messages rise and the budget is on, the call loses no message and folds none
  -- twice: the messages since the old summary are those that were summarized with it, if any, and
  -- then those since the new one, and the returned summary is the one that is stored.
  pub condense_history-IsContinued :
      (s : Store)
      → IsRising s.messages
      → IsContinued summarize u epoch s (condense_history summarize (pos budget) depth u epoch s)
  unfolding condense_history condense_tail messages_since
  condense_history-IsContinued s r =
      let saved = get_session_summary u epoch s in
      let tail = messages_since u (mark_of u epoch s) (pos max_unsummarized_scan) s in
      let k = length tail - summary_keep_recent in
      elim (Bool-cases (leb (total_chars tail) budget || leb (length tail) summary_keep_recent)) [
        | inl short ↦ rw short (([], refl, inl refl), refl)
        | inr long ↦ elim (Bool-cases (summarize (saved.0) (take k tail) == "")) [
          | inl failed ↦ rw (long, failed) (([], refl, inl refl), refl)
          | inr made ↦
              let next = summarize (saved.0) (take k tail) in
              let size =
                scan_length max_unsummarized_scan (turn_rows u (mark_of u epoch s) s.messages) in
              let over =
                scan_over (total_chars tail) budget (length tail) summary_keep_recent long in
              rw (long, made)
                (
                  (
                    take k tail,
                    fold_continued u epoch k max_unsummarized_scan next s (omega (arith, over))
                        (omega (arith, size)) (omega (arith, size)) r,
                    inr refl,
                  ),
                  ap (λ x. x.0) (summary_after u epoch (last_id (take k tail)) next s),
                )
        ]
      ]
