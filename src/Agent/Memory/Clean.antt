-- ===== src/Agent/Memory/Clean.antt =====
-- What the agent stores as a preference is short and on one line.
use mathlib.Core.Option
use chic_mcp.Prelude.{
  ℕ, suc, ◌≤◌, length, Option-cases, ◌≡◌, refl, subst, sym, Bool, true, false, Option, none, some,
  List, [], ◌∷◌, All, String, ltb, ◌==◌, Eq, string_eq, nat_eq, pair_eq, Bool-cases, inl, inr,
  arith,
}
use chic_mcp.Prelude.Dict.{Dict, put, remove}
use chic_mcp.Prelude.Sets.{contains}
use chic_mcp.Prelude.Words.{strip, collapse, chars, one_line, one_line-collapse}
use chic_mcp.Prelude.Json.{Json, Items, null, bool, num, str, arr, obj, nil, cons}
use chic_mcp.Store.Chat.{Preference, Store, set_preference, delete_preference, preferences_of}
use chic_mcp.Agent.Memory.{
  max_pref_key_len, max_pref_value_len, consolidate_threshold, aux_run, entries, entry, skipped,
  collect, collect_parsed, braced, parse_consolidated, delete_missing, set_all, keys, merge,
  rejected, apply_desired, maybe_consolidate, answered, remember,
}

-- One line, not empty, and at most so many characters
abbrev pub IsTidy : ℕ → String → Type 0
IsTidy n s = (one_line s ≡ true) × (s == "" ≡ false) × (chars s ≤ n)

abbrev pub IsTidyPair : String → String → Type 0
IsTidyPair key value = IsTidy max_pref_key_len key × IsTidy max_pref_value_len value

-- Every stored preference is tidy.
abbrev pub IsClean : Store → Type 0
IsClean s = All (λ e. IsTidyPair (e.0.1) (e.1.0)) s.preferences

module _ {ℓ κ μ} {K : Type ℓ} {V : Type κ} ⦃e : Eq K⦄ (P : K × V → Type μ) where
  All-put : (m : Dict K V) (k : K) (v : V) → P (k, v) → All P m → All P (put m k v)
  unfolding put
  All-put [] k v h hs = (h, tt)
  All-put ((j, w) ∷ m) k v h hs = elim (Bool-cases (j == k)) [
    | inl same ↦ rw (same, put) (subst (λ i. P (i, v)) (sym ((e.same_iff j k).0 same)) h, hs.1)
    | inr other ↦ rw (other, put) (hs.0, All-put m k v h hs.1)
  ]

  All-remove : (m : Dict K V) (k : K) → All P m → All P (remove m k)
  unfolding remove
  All-remove [] k hs = tt
  All-remove ((j, w) ∷ m) k hs = elim (Bool-cases (j == k)) [
    | inl same ↦ rw (same, remove) (All-remove m k hs.1)
    | inr other ↦ rw (other, remove) (hs.0, All-remove m k hs.1)
  ]

set_preference-IsClean :
    (now user_id : ℕ) (key value : String) (s : Store)
    → IsTidyPair key value
    → IsClean s
    → IsClean (set_preference now user_id key value s)
unfolding set_preference
set_preference-IsClean now user_id key value s h c =
    All-put (λ e. IsTidyPair (e.0.1) (e.1.0)) s.preferences (user_id, key) (value, now) h c

delete_preference-IsClean :
    (user_id : ℕ) (key : String) (s : Store) → IsClean s → IsClean (delete_preference user_id key s)
unfolding delete_preference
delete_preference-IsClean user_id key s c =
    All-remove (λ e. IsTidyPair (e.0.1) (e.1.0)) s.preferences (user_id, key) c

delete_missing-IsClean :
    (keep : List String) (user_id : ℕ) (ps : List Preference) (s : Store)
    → IsClean s
    → IsClean (delete_missing keep user_id ps s)
unfolding delete_missing
delete_missing-IsClean keep user_id [] s c = c
delete_missing-IsClean keep user_id (p ∷ ps) s c = elim (Bool-cases (contains keep p.key)) [
  | inl kept ↦ rw (kept, delete_missing) (delete_missing-IsClean keep user_id ps s c)
  | inr gone ↦
      rw (gone, delete_missing)
        (delete_missing-IsClean keep user_id ps (delete_preference user_id p.key s)
          (delete_preference-IsClean user_id p.key s c))
]

abbrev AllTidy : List Preference → Type 0
AllTidy ps = All (λ p. IsTidyPair p.key p.value) ps

set_all-IsClean :
    (times : ℕ → ℕ) (i user_id : ℕ) (ps : List Preference) (s : Store)
    → AllTidy ps
    → IsClean s
    → IsClean (set_all times i user_id ps s)
unfolding set_all
set_all-IsClean times i user_id [] s h c = c
set_all-IsClean times i user_id (p ∷ ps) s h c =
    set_all-IsClean times (suc i) user_id ps (set_preference (times i) user_id p.key p.value s) h.1
      (set_preference-IsClean (times i) user_id p.key p.value s h.0 c)

-- What a list that may be missing holds, is tidy.
abbrev Tidied : Option (List Preference) → Type 0
Tidied none = Unit
Tidied (some ps) = AllTidy ps

Tidied-cons :
    (p : Preference) (r : Option (List Preference))
    → IsTidyPair p.key p.value
    → Tidied r
    → Tidied (Option.map (λ ps. p ∷ ps) r)
Tidied-cons p none h hs = tt
Tidied-cons p (some ps) h hs = (h, hs)

not_skipped_tidy :
    (seen : List String) (p : Preference)
    → one_line p.key ≡ true
    → one_line p.value ≡ true
    → skipped seen p ≡ false
    → IsTidyPair p.key p.value
unfolding skipped
not_skipped_tidy seen p hk hv h = ground arith

made_one_line :
    (a b : String) (p : Preference)
    → ◌≡◌ {A = Option Preference} (some (record { key = collapse a; value = collapse b })) (some p)
    → (one_line p.key ≡ true) × (one_line p.value ≡ true)
made_one_line a b p h = (
  subst (λ k. one_line k ≡ true) (cc) (one_line-collapse a),
  subst (λ k. one_line k ≡ true) (cc) (one_line-collapse b),
)

module _ (show : Json → String) where
  entry-one_line :
      (v : Json) (p : Preference)
      → entry show v ≡ some p
      → (one_line p.key ≡ true) × (one_line p.value ≡ true)
  unfolding entry
  entry-one_line (obj fs) p h = made_one_line _ _ p h
  entry-one_line null p h = absurd (cc)
  entry-one_line (bool b) p h = absurd (cc)
  entry-one_line (num n) p h = absurd (cc)
  entry-one_line (str s) p h = absurd (cc)
  entry-one_line (arr vs) p h = absurd (cc)

  collect-Tidied : (seen : List String) (es : Items) → Tidied (collect show seen es)
  unfolding collect
  collect-Tidied seen nil = tt
  collect-Tidied seen (cons v es) = elim (Option-cases (entry show v)) [
    | inl fails ↦ rw (fails, collect) tt
    | inr (p, e) ↦ elim (Bool-cases (skipped seen p)) [
      | inl skip ↦ rw (e, skip, collect) (collect-Tidied seen es)
      | inr keep ↦
          let line = entry-one_line v p e in
          rw (e, keep, collect)
            (Tidied-cons p (collect show (p.key ∷ seen) es)
              (not_skipped_tidy seen p line.0 line.1 keep) (collect-Tidied (p.key ∷ seen) es))
    ]
  ]

  collect_parsed-Tidied : (j : Option Json) → Tidied (collect_parsed show j)
  unfolding collect_parsed
  collect_parsed-Tidied none = tt
  collect_parsed-Tidied (some v) = elim (Option-cases (entries v)) [
    | inl fails ↦ rw (fails, collect_parsed) tt
    | inr (es, e) ↦ rw (e, collect_parsed) (collect-Tidied [] es)
  ]

  parse_consolidated-Tidied :
      (loads : String → Option Json) (raw : String) → Tidied (parse_consolidated show loads raw)
  unfolding parse_consolidated
  parse_consolidated-Tidied loads raw = elim (Option-cases (braced (strip raw))) [
    | inl bare ↦ rw (bare, parse_consolidated) tt
    | inr (s, e) ↦ rw (e, parse_consolidated) (collect_parsed-Tidied (loads s))
  ]

apply_desired-IsClean :
    (times : ℕ → ℕ) (user_id : ℕ) (current : List Preference) (desired : Option (List Preference))
    (s : Store)
    → Tidied desired
    → IsClean s
    → IsClean (apply_desired times user_id current desired s).0
unfolding apply_desired merge
apply_desired-IsClean times user_id current none s h c = c
apply_desired-IsClean times user_id current (some desired) s h c =
    elim (Bool-cases (rejected current desired)) [
      | inl no_merge ↦ rw (no_merge, apply_desired) c
      | inr merged ↦
          rw (merged, apply_desired)
            (set_all-IsClean times 0 user_id desired
              (delete_missing (keys desired) user_id current s) h
              (delete_missing-IsClean (keys desired) user_id current s c))
    ]

answered_store : (key value : String) (r : Store × Bool) → (answered key value r).1 ≡ r.0
unfolding answered
answered_store key value (s, true) = refl
answered_store key value (s, false) = refl

module _ (ahead : String → String → Bool) (ask : List Preference → Option String)
    (loads : String → Option Json) (show : Json → String) (times : ℕ → ℕ) (user_id : ℕ) where
  maybe_consolidate-IsClean :
      (s : Store) → IsClean s → IsClean (maybe_consolidate ahead ask loads show times user_id s).0
  unfolding maybe_consolidate
  maybe_consolidate-IsClean s c =
      let current = preferences_of ahead user_id s in
      let text = aux_run (ask current) in
      elim (Bool-cases (ltb (length current) consolidate_threshold)) [
        | inl few ↦ rw (few, maybe_consolidate) c
        | inr many ↦ elim (Bool-cases (text == "")) [
          | inl failed ↦ rw (many, failed, maybe_consolidate) c
          | inr made ↦
              rw (many, made, maybe_consolidate)
                (apply_desired-IsClean times user_id current (parse_consolidated show loads text) s
                  (parse_consolidated-Tidied show loads text) c)
        ]
      ]

  -- Whatever is remembered, and whatever the model makes of the preferences in a consolidation,
  -- each stored preference stays on one line, is not empty, and keeps to 64 and 200 characters.
  pub remember-IsClean :
      (now : ℕ) (raw_key raw_value : String) (s : Store)
      → IsClean s
      → IsClean (remember ahead ask loads show times user_id now raw_key raw_value s).1
  unfolding remember
  remember-IsClean now raw_key raw_value s c =
      let key = collapse raw_key in
      let value = collapse raw_value in
      elim (Bool-cases (key == "")) [
        | inl a ↦ rw (a, remember) c
        | inr a ↦ elim (Bool-cases (ltb max_pref_key_len (chars key))) [
          | inl b ↦ rw (a, b, remember) c
          | inr b ↦ elim (Bool-cases (value == "")) [
            | inl d ↦ rw (a, b, d, remember) c
            | inr d ↦ elim (Bool-cases (ltb max_pref_value_len (chars value))) [
              | inl e ↦ rw (a, b, d, e, remember) c
              | inr e ↦
                  rw
                    (
                      a,
                      b,
                      d,
                      e,
                      remember,
                      answered_store key value (
                          maybe_consolidate ahead ask loads show times user_id
                            (set_preference now user_id key value s)),
                    )
                    (maybe_consolidate-IsClean (set_preference now user_id key value s) (
                      set_preference-IsClean now user_id key value s
                        (
                          (one_line-collapse raw_key, a, ground arith),
                          (one_line-collapse raw_value, d, ground arith),
                        )
                        c))
            ]
          ]
        ]
      ]
