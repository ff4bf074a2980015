-- ===== src/Agent/Memory/Unreadable.antt =====
-- The answers of a consolidation that `_parse_consolidated` raises on.
use mathlib.Core.Option
use chic_mcp.Prelude.{
  ◌≡◌, refl, subst, Bool, true, false, ◌||◌, not, Option, Option-cases, none, some, List, [], ◌∷◌,
  String, Bool-cases, inl, inr, arith,
}
use chic_mcp.Prelude.Words.{strip}
use chic_mcp.Prelude.Json.{
  Json, Items, null, bool, num, str, arr, obj, nil, cons, end, field, lookup,
}
use chic_mcp.Store.Chat.{Preference}
use chic_mcp.Agent.Memory.{
  iterate, entries, entry, skipped, collect, collect_parsed, braced, parse_consolidated,
}

abbrev pub is_none {ℓ} : {A : Type ℓ} → Option A → Bool
is_none none = true
is_none (some x) = false

abbrev is_object : Json → Bool
is_object (obj fs) = true
is_object _ = false

-- Some element is no object.
abbrev pub has_other : Items → Bool
has_other nil = false
has_other (cons v vs) = not (is_object v) || has_other vs

-- A value of `preferences` that cannot be read: null, a number or a Boolean, a text or an object that
-- is not empty, or a list with an element that is no object
abbrev pub unreadable_list : Json → Bool
unreadable_list (arr vs) = has_other vs
unreadable_list (str String.[]) = false
unreadable_list (str (String.◌∷◌ c s)) = true
unreadable_list (obj end) = false
unreadable_list (obj (field k v fs)) = true
unreadable_list _ = true

-- What `json.loads` read
abbrev pub unreadable : Option Json → Bool
unreadable (some (obj fs)) = elim (lookup fs "preferences") as (λ x. Bool) [
  | none ↦ false
  | some v ↦ unreadable_list v
]
unreadable _ = false

-- The answer as a text
abbrev pub unreadable_text : (String → Option Json) → String → Bool
unreadable_text loads raw = elim (braced (strip raw)) as (λ x. Bool) [
  | none ↦ false
  | some s ↦ unreadable (loads s)
]

is_none-map :
    (p : Preference) (r : Option (List Preference))
    → is_none (Option.map (λ ps. p ∷ ps) r) ≡ is_none r
is_none-map p none = refl
is_none-map p (some ps) = refl

module _ (show : Json → String) where
  is_none-entry : (v : Json) → is_none (entry show v) ≡ not (is_object v)
  unfolding entry
  is_none-entry (obj fs) = refl
  is_none-entry null = refl
  is_none-entry (bool b) = refl
  is_none-entry (num n) = refl
  is_none-entry (str s) = refl
  is_none-entry (arr vs) = refl

  is_none-collect :
      (seen : List String) (es : Items) → is_none (collect show seen es) ≡ has_other es
  unfolding collect
  is_none-collect seen nil = refl
  is_none-collect seen (cons v es) = elim (Option-cases (entry show v)) [
    | inl fails ↦
        rw (fails, collect)
          (ground (arith, subst (λ o. is_none o ≡ not (is_object v)) fails (is_none-entry v)))
    | inr (p, e) ↦
        let read = subst (λ o. is_none o ≡ not (is_object v)) e (is_none-entry v) in
        elim (Bool-cases (skipped seen p)) [
          | inl skip ↦ rw (e, skip, collect) (ground (arith, read, is_none-collect seen es))
          | inr keep ↦
              rw (e, keep, collect, is_none-map p (collect show (p.key ∷ seen) es))
                (ground (arith, read, is_none-collect (p.key ∷ seen) es))
        ]
  ]

  -- What the loop makes of the value of `preferences`
  abbrev collect_from : Option Items → Option (List Preference)
  collect_from read = elim read as (λ x. Option (List Preference)) [
    | none ↦ none
    | some es ↦ collect show [] es
  ]

  is_none-collect_from : (v : Json) → is_none (collect_from (iterate v)) ≡ unreadable_list v
  unfolding iterate collect entry
  is_none-collect_from null = refl
  is_none-collect_from (bool b) = refl
  is_none-collect_from (num n) = refl
  is_none-collect_from (str String.[]) = refl
  is_none-collect_from (str (String.◌∷◌ c s)) = refl
  is_none-collect_from (arr vs) = is_none-collect [] vs
  is_none-collect_from (obj end) = refl
  is_none-collect_from (obj (field k v fs)) = refl

  is_none-found :
      (o : Option Json)
      → is_none
          (collect_from (elim o as (λ x. Option Items) [ none ↦ some nil | some v ↦ iterate v ]))
        ≡ (elim o as (λ x. Bool) [ none ↦ false | some v ↦ unreadable_list v ])
  unfolding collect
  is_none-found none = refl
  is_none-found (some v) = is_none-collect_from v

  is_none-collect_parsed : (j : Option Json) → is_none (collect_parsed show j) ≡ unreadable j
  unfolding collect_parsed entries collect
  is_none-collect_parsed none = refl
  is_none-collect_parsed (some null) = refl
  is_none-collect_parsed (some (bool b)) = refl
  is_none-collect_parsed (some (num n)) = refl
  is_none-collect_parsed (some (str s)) = refl
  is_none-collect_parsed (some (arr vs)) = refl
  is_none-collect_parsed (some (obj fs)) = is_none-found (lookup fs "preferences")

  is_none-braced :
      (loads : String → Option Json) (o : Option String)
      → is_none (elim o as (λ x. Option (List Preference)) [
        | none ↦ some []
        | some s ↦ collect_parsed show (loads s)
      ])
        ≡ (elim o as (λ x. Bool) [ none ↦ false | some s ↦ unreadable (loads s) ])
  is_none-braced loads none = refl
  is_none-braced loads (some s) = is_none-collect_parsed (loads s)

  pub is_none-parse_consolidated :
      (loads : String → Option Json) (raw : String)
      → is_none (parse_consolidated show loads raw) ≡ unreadable_text loads raw
  unfolding parse_consolidated
  is_none-parse_consolidated loads raw = is_none-braced loads (braced (strip raw))
