-- ===== src/Agent/Memory/Merge.antt =====
-- What a consolidation leaves of the preferences, and when remembering one raises.

use chic_mcp.Prelude.{
  ℕ, ◌≤◌, ◌<◌, ◌≡◌, refl, ap, ◌∙◌, subst, Bool, true, false, ◌&&◌, not, Option, none, some, List,
  String, length, ltb, leb, ◌==◌, string_eq, nat_eq, if◌then◌else◌, Bool-cases, inl, inr, arith,
  ◌⊎◌,
}
use chic_mcp.Prelude.Sets.{contains}
use chic_mcp.Prelude.Words.{collapse, chars}
use chic_mcp.Prelude.Json.{Json}
use chic_mcp.Store.Chat.{Preference, Store, set_preference, preferences_of}
use chic_mcp.Agent.Memory.{
  max_pref_key_len, max_pref_value_len, consolidate_threshold, aux_run, parse_consolidated, keys,
  apply_desired, maybe_consolidate, answered, remember,
}
use chic_mcp.Agent.Memory.Values.{value_of, value_in, or_value}
use chic_mcp.Agent.Memory.Once.{IsDistinct}
use chic_mcp.Agent.Memory.Unreadable.{is_none, unreadable_text, is_none-parse_consolidated}

-- The desired preferences, each of its own key, are what the user then has in place of the current
-- ones, and nothing else changes.
abbrev pub IsMerged : ℕ → List Preference → List Preference → Store → Store → Type 0
IsMerged u current desired s s' =
    IsDistinct (keys desired)
    × ((v : ℕ) (k : String)
        → value_of s' v k ≡ (
            if u == v
            then or_value (value_in desired k)
                (if contains (keys current) k then none else value_of s v k)
            else value_of s v k))

-- There are too few preferences, no answer, or none that is to be merged.
abbrev pub IsLeft : List Preference → String → Option (List Preference) → Type 0
IsLeft current text parsed =
    (length current < consolidate_threshold)
    ⊎ ((text == "" ≡ true)
        ⊎ ((parsed ≡ none)
            ⊎ ((desired : List Preference) × (parsed ≡ some desired)
                × ((length desired ≡ 0) ⊎ (length current < length desired)))))

-- The opposite, with the preferences that are to be merged
abbrev pub IsDue : List Preference → String → Option (List Preference) → List Preference → Type 0
IsDue current text parsed desired =
    (consolidate_threshold ≤ length current)
    × (text == "" ≡ false)
    × (parsed ≡ some desired)
    × (0 < length desired)
    × (length desired ≤ length current)

-- Nothing changed, for one of these reasons, or the preferences were due and merged.
abbrev pub IsOutcome :
    ℕ → List Preference → String → Option (List Preference) → Store → Store → Type 0
IsOutcome u current text parsed s s' =
    ((s' ≡ s) × IsLeft current text parsed)
    ⊎ ((desired : List Preference) × IsDue current text parsed desired
        × IsMerged u current desired s s')

-- The store once a preference is stored, and the answer of the model that then comes
abbrev pub after_set : ℕ → ℕ → String → String → Store → Store
after_set user_id now raw_key raw_value s =
    set_preference now user_id (collapse raw_key) (collapse raw_value) s

abbrev pub answer_after :
    (String → String → Bool) → (List Preference → Option String) → ℕ → Store → String
answer_after ahead ask user_id s = aux_run (ask (preferences_of ahead user_id s))

-- A text of at least one and at most so many characters
abbrev pub fits : ℕ → String → Bool
fits n s = not (s == "") && leb (chars s) n

-- There are enough preferences, and an answer that cannot be read.
abbrev pub breaks :
    (String → Option Json)
    → (String → String → Bool)
    → (List Preference → Option String)
    → ℕ
    → Store
    → Bool
breaks loads ahead ask user_id s =
    let text = answer_after ahead ask user_id s in
    leb consolidate_threshold (length (preferences_of ahead user_id s))
    && (not (text == "") && unreadable_text loads text)

-- The call raises, and leaves this store, or it has an answer.
abbrev pub IsRaised : Bool → Store → Option String × Store → Type 0
IsRaised raises stored r =
    ((raises ≡ true) × (r ≡ (none, stored))) ⊎ ((raises ≡ false) × (is_none (r.0) ≡ false))

module _ (ahead : String → String → Bool) (ask : List Preference → Option String)
    (loads : String → Option Json) (show : Json → String) (times : ℕ → ℕ) (user_id : ℕ) where
  -- The call ends before the answer is read, or as the rest does.
  maybe_consolidate_lem :
      (s : Store)
      → let current = preferences_of ahead user_id s in
        let text = answer_after ahead ask user_id s in
        let r = maybe_consolidate ahead ask loads show times user_id s in
        (((length current < consolidate_threshold) ⊎ (text == "" ≡ true)) × (r ≡ (s, true)))
        ⊎ ((consolidate_threshold ≤ length current)
            × (text == "" ≡ false)
            × (r ≡ apply_desired times user_id current (parse_consolidated show loads text) s))
  unfolding maybe_consolidate
  maybe_consolidate_lem s =
      let current = preferences_of ahead user_id s in
      let text = answer_after ahead ask user_id s in
      elim (Bool-cases (ltb (length current) consolidate_threshold)) [
        | inl few ↦ inl (inl (ground arith), rw few refl)
        | inr many ↦ elim (Bool-cases (text == "")) [
          | inl failed ↦ inl (inr failed, rw (many, failed) refl)
          | inr made ↦ inr (ground arith, made, rw (many, made) refl)
        ]
      ]

  apply_desired_lem :
      (current : List Preference) (parsed : Option (List Preference)) (s : Store)
      → let r = apply_desired times user_id current parsed s in
        ((is_none parsed ≡ true) × (r ≡ (s, false))) ⊎ ((is_none parsed ≡ false) × (r.1 ≡ true))
  unfolding apply_desired
  apply_desired_lem current none s = inl (refl, refl)
  apply_desired_lem current (some desired) s = inr (refl, ground arith)

  -- Whether a consolidation raises
  maybe_consolidate-breaks :
      (s : Store)
      → let r = maybe_consolidate ahead ask loads show times user_id s in
        let b = breaks loads ahead ask user_id s in
        ((b ≡ true) × (r ≡ (s, false))) ⊎ ((b ≡ false) × (r.1 ≡ true))
  maybe_consolidate-breaks s =
      let current = preferences_of ahead user_id s in
      let text = answer_after ahead ask user_id s in
      let parsed = parse_consolidated show loads text in
      let read = is_none-parse_consolidated show loads text in
      elim (maybe_consolidate_lem s) [
        | inl (why, same) ↦ inr (ground (arith, why), ap (λ r. r.1) same)
        | inr (many, made, same) ↦ elim (apply_desired_lem current parsed s) [
          | inl (fails, kept) ↦ inl (ground (arith, many, made, fails, read), same ∙ kept)
          | inr (reads, done) ↦ inr (ground (arith, reads, read), ap (λ r. r.1) same ∙ done)
        ]
      ]

  -- The answer and the store, by whether the consolidation raises
  answered-IsRaised :
      (key value : String) (r : Store × Bool) (b : Bool) (s : Store)
      → ((b ≡ true) × (r ≡ (s, false))) ⊎ ((b ≡ false) × (r.1 ≡ true))
      → IsRaised b s (answered key value r)
  unfolding answered
  answered-IsRaised key value r b s (inl (breaks, same)) =
      inl (breaks, ap (answered key value) same)
  answered-IsRaised key value (t, true) b s (inr (reads, done)) = inr (reads, refl)
  answered-IsRaised key value (t, false) b s (inr (reads, done)) = absurd (cc)

  -- The tool raises just if it accepts the preference, whose key has at most 64 characters and whose
  -- value at most 200, the user then has at least eight, and the model gives an answer that cannot be
  -- read: a JSON object whose preferences are null, a number, a Boolean, a text or an object that is
  -- not empty, or a list with an element that is no object. The preference is then stored.
  pub remember_raises :
      (now : ℕ) (raw_key raw_value : String) (s : Store)
      → let stored = after_set user_id now raw_key raw_value s in
        IsRaised
          ((fits max_pref_key_len (collapse raw_key)
              && fits max_pref_value_len (collapse raw_value))
            && breaks loads ahead ask user_id stored)
          stored
          (remember ahead ask loads show times user_id now raw_key raw_value s)
  unfolding remember
  remember_raises now raw_key raw_value s =
      let key = collapse raw_key in
      let value = collapse raw_value in
      let stored = after_set user_id now raw_key raw_value s in
      elim (Bool-cases (fits max_pref_key_len key && fits max_pref_value_len value)) [
        | inr bad ↦ inr (ground (arith, bad), ground (arith, bad))
        | inl good ↦
            let b = breaks loads ahead ask user_id stored in
            let r = maybe_consolidate ahead ask loads show times user_id stored in
            let same : answered key value r
                ≡ remember ahead ask loads show times user_id now raw_key raw_value s =
              ground (arith, good) in
            rw good (
              subst (IsRaised b stored) same
                (answered-IsRaised key value r b stored (maybe_consolidate-breaks stored)))
      ]
