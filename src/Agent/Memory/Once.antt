-- ===== src/Agent/Memory/Once.antt =====
-- The preferences read from an answer have each key once.
use mathlib.Core.Option
use chic_mcp.Prelude.{
  ◌≡◌, refl, subst, true, false, Option, Option-cases, none, some, List, [], ◌∷◌, String, ◌==◌,
  string_eq, Bool-cases, inl, inr, arith,
}
use chic_mcp.Prelude.Sets.{contains}
use chic_mcp.Prelude.Words.{strip}
use chic_mcp.Prelude.Json.{Json, Items, nil, cons}
use chic_mcp.Store.Chat.{Preference}
use chic_mcp.Agent.Memory.{
  keys, entries, entry, skipped, collect, collect_parsed, braced, parse_consolidated,
}

-- No key stands twice.
abbrev pub IsDistinct : List String → Type 0
IsDistinct [] = Unit
IsDistinct (k ∷ ks) = (contains ks k ≡ false) × IsDistinct ks

-- None of the texts is among the others.
abbrev IsApart : List String → List String → Type 0
IsApart seen ks = (k : String) → contains seen k ≡ true → contains ks k ≡ false

abbrev OnceApart : List String → Option (List Preference) → Type 0
OnceApart seen none = Unit
OnceApart seen (some ps) = IsDistinct (keys ps) × IsApart seen (keys ps)

OnceApart-cons :
    (seen : List String) (p : Preference) (r : Option (List Preference))
    → contains seen p.key ≡ false
    → OnceApart (p.key ∷ seen) r
    → OnceApart seen (Option.map (λ ps. p ∷ ps) r)
unfolding contains
OnceApart-cons seen p none new h = tt
OnceApart-cons seen p (some ps) new h = (
  (h.1 p.key (rw ((string_eq.same_iff p.key p.key).1 refl) refl), h.0),
  λ k old. elim (Bool-cases (p.key == k)) [
    | inl same ↦ ground (arith, string_eq.same_iff p.key k)
    | inr other ↦ rw other (h.1 k (rw other old))
  ],
)

not_skipped_new :
    (seen : List String) (p : Preference) → skipped seen p ≡ false → contains seen p.key ≡ false
unfolding skipped
not_skipped_new seen p h = ground arith

OnceApart-IsDistinct :
    (r : Option (List Preference)) (ps : List Preference)
    → OnceApart [] r
    → r ≡ some ps
    → IsDistinct (keys ps)
OnceApart-IsDistinct none ps h e = absurd (cc)
OnceApart-IsDistinct (some qs) ps h e = subst (λ qs. IsDistinct (keys qs)) (cc) h.0

module _ (show : Json → String) where
  collect-OnceApart : (seen : List String) (es : Items) → OnceApart seen (collect show seen es)
  unfolding collect contains
  collect-OnceApart seen nil = (tt, λ k old. refl)
  collect-OnceApart seen (cons v es) = elim (Option-cases (entry show v)) [
    | inl fails ↦ rw (fails, collect) tt
    | inr (p, e) ↦ elim (Bool-cases (skipped seen p)) [
      | inl skip ↦ rw (e, skip, collect) (collect-OnceApart seen es)
      | inr keep ↦
          rw (e, keep, collect)
            (OnceApart-cons seen p (collect show (p.key ∷ seen) es) (not_skipped_new seen p keep)
              (collect-OnceApart (p.key ∷ seen) es))
    ]
  ]

  collect_parsed-OnceApart : (j : Option Json) → OnceApart [] (collect_parsed show j)
  unfolding collect_parsed contains
  collect_parsed-OnceApart none = (tt, λ k old. refl)
  collect_parsed-OnceApart (some v) = elim (Option-cases (entries v)) [
    | inl fails ↦ rw (fails, collect_parsed) tt
    | inr (es, e) ↦ rw (e, collect_parsed) (collect-OnceApart [] es)
  ]

  parse_consolidated-OnceApart :
      (loads : String → Option Json) (raw : String)
      → OnceApart [] (parse_consolidated show loads raw)
  unfolding parse_consolidated contains
  parse_consolidated-OnceApart loads raw = elim (Option-cases (braced (strip raw))) [
    | inl bare ↦ rw (bare, parse_consolidated) (tt, λ k old. refl)
    | inr (s, e) ↦ rw (e, parse_consolidated) (collect_parsed-OnceApart (loads s))
  ]

  pub parse_consolidated-IsDistinct :
      (loads : String → Option Json) (raw : String) (ps : List Preference)
      → parse_consolidated show loads raw ≡ some ps
      → IsDistinct (keys ps)
  parse_consolidated-IsDistinct loads raw ps h =
      OnceApart-IsDistinct (parse_consolidated show loads raw) ps
        (parse_consolidated-OnceApart loads raw) h
