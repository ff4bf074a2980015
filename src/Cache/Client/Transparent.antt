-- ===== src/Cache/Client/Transparent.antt =====
-- What the cache serves is what the wrapped client once answered to the same key.
use chic_mcp.Prelude.{
  ℕ, ◌≡◌, refl, sym, subst, ◌∙◌, Bool, true, false, Option, none, some, leb, Eq, ◌==◌, arith,
  Option-cases, inl, inr, Bool-cases,
}
use chic_mcp.Prelude.Dict
use chic_mcp.Prelude.Dict.{Dict, get-put}
use chic_mcp.Cache.Store
use chic_mcp.Cache.Store.{Row, select_live}
use chic_mcp.Cache.Client.{Adapter, Served, refetch, validated, lookup_then, cached}

module _ {K T B : Type 0} ⦃e : Eq K⦄ (adapter : Adapter T B)
    (round_trip : (v : T) → adapter.validate (adapter.dump v) ≡ some v)
    (Answer : K → T → Type 0) where
  -- Each stored value is the dump of an answer to its key.
  pub record IsFaithful (table : Dict K (Row B)) : Type 0 where
    pub stored :
        (k : K) (r : Row B)
        → Dict.get table k ≡ some r
        → (v : T) × (r.value ≡ adapter.dump v) × Answer k v

  abbrev pub Answers : K → Option T → Type 0
  Answers k none = Unit
  Answers k (some v) = Answer k v

  put-IsFaithful :
      (k : K) (v : T) (expires : ℕ) (table : Dict K (Row B))
      → IsFaithful table
      → Answer k v
      → IsFaithful (Dict.put table k (record { value = adapter.dump v; expires_at = expires }))
  put-IsFaithful k v expires table h a = record {
    stored = λ j r p. elim (Bool-cases (k == j)) [
      | inl same ↦ (
        v,
        ground (arith, get-put table k j (record { value = adapter.dump v; expires_at = expires })),
        subst (λ i. Answer i v) ((e.same_iff k j).0 same) a,
      )
      | inr other ↦ h.stored j r (
          ground
            (arith, get-put table k j (record { value = adapter.dump v; expires_at = expires })))
    ];
  }

  set-IsFaithful :
      (failing : Bool) (now ttl : ℕ) (k : K) (v : T) (table : Dict K (Row B))
      → IsFaithful table
      → Answer k v
      → IsFaithful (Store.set failing now k (adapter.dump v) ttl table)
  unfolding Store.set
  set-IsFaithful failing now ttl k v table h a = elim (Bool-cases (leb ttl 0)) [
    | inl off ↦ rw (off, Store.set) h
    | inr on ↦ elim (Bool-cases failing) [
      | inl broken ↦ rw (on, broken, Store.set) h
      | inr works ↦ rw (on, works, Store.set) (put-IsFaithful k v _ table h a)
    ]
  ]

  refetch-IsFaithful :
      (failing : Bool) (now ttl : ℕ) (k : K) (fetch : Option T) (table : Dict K (Row B))
      → IsFaithful table
      → Answers k fetch
      → IsFaithful (refetch adapter failing now k ttl fetch table).table
        × Answers k (refetch adapter failing now k ttl fetch table).result
  unfolding refetch
  refetch-IsFaithful failing now ttl k none table h a = (h, tt)
  refetch-IsFaithful failing now ttl k (some v) table h a =
      (set-IsFaithful failing now ttl k v table h a, a)

  live_select :
      (now : ℕ) (raw : B) (o : Option (Row B))
      → select_live now o ≡ some raw
      → (r : Row B) × (o ≡ some r) × (r.value ≡ raw)
  unfolding select_live
  live_select now raw none h = cc
  live_select now raw (some r) h = (r, refl, ground arith)

  live_row :
      (failing : Bool) (now : ℕ) (k : K) (raw : B) (table : Dict K (Row B))
      → Store.get failing now k table ≡ some raw
      → (r : Row B) × (Dict.get table k ≡ some r) × (r.value ≡ raw)
  unfolding Store.get
  live_row true now k raw table h = cc
  live_row false now k raw table h = live_select now raw (Dict.get table k) h

  validated-IsFaithful :
      (failing : Bool) (now ttl : ℕ) (k : K) (fetch : Option T) (table : Dict K (Row B)) (raw : B)
      → IsFaithful table
      → Answers k fetch
      → ((v : T) × (raw ≡ adapter.dump v) × Answer k v)
      → IsFaithful (validated adapter failing now k ttl fetch table (adapter.validate raw)).table
        × Answers k (validated adapter failing now k ttl fetch table (adapter.validate raw)).result
  unfolding validated
  validated-IsFaithful failing now ttl k fetch table raw h a (v, d, ok) =
      rw (d, round_trip v) (h, ok)

  lookup_then-IsFaithful :
      (failing : Bool) (now ttl : ℕ) (k : K) (fetch : Option T) (table : Dict K (Row B))
      → IsFaithful table
      → Answers k fetch
      → (o : Option B) → ((raw : B) → o ≡ some raw → (v : T) × (raw ≡ adapter.dump v) × Answer k v)
      → IsFaithful (lookup_then adapter failing now k ttl fetch table o).table
        × Answers k (lookup_then adapter failing now k ttl fetch table o).result
  unfolding lookup_then
  lookup_then-IsFaithful failing now ttl k fetch table h a none origin =
      refetch-IsFaithful failing now ttl k fetch table h a
  lookup_then-IsFaithful failing now ttl k fetch table h a (some raw) origin =
      validated-IsFaithful failing now ttl k fetch table raw h a (origin raw refl)

  -- If the client's answer to a key has a property, and the stored answers to each key have it, then
  -- what `_cached` returns has it, and so have the answers that are stored afterwards, whether SQLite
  -- fails or not, on the read or on the write.
  pub cached-IsFaithful :
      (read_fails write_fails : Bool) (now ttl : ℕ) (k : K) (fetch : Option T)
      (table : Dict K (Row B))
      → IsFaithful table
      → Answers k fetch
      → IsFaithful (cached adapter read_fails write_fails now ttl k fetch table).table
        × Answers k (cached adapter read_fails write_fails now ttl k fetch table).result
  unfolding cached
  cached-IsFaithful read_fails write_fails now ttl k fetch table h a =
      elim (Bool-cases (leb ttl 0)) [
        | inl off ↦ rw (off, cached) (h, a)
        | inr on ↦
            rw (on, cached)
              (lookup_then-IsFaithful write_fails now ttl k fetch table h a
                (Store.get read_fails now k table)
                λ raw p.
                  let (r, found, value) = live_row read_fails now k raw table p in
                  let (v, d, ok) = h.stored k r found in (v, sym value ∙ d, ok))
      ]

module _ {K T B : Type 0} ⦃e : Eq K⦄ (adapter : Adapter T B) where
  abbrev Failed : Option T → Dict K (Row B) → Served K T B → Type 0
  Failed fetch table s = s.result ≡ none → (fetch ≡ none) × (s.fetched ≡ true) × (s.table ≡ table)

  refetch-Failed :
      (failing : Bool) (now ttl : ℕ) (k : K) (fetch : Option T) (table : Dict K (Row B))
      → Failed fetch table (refetch adapter failing now k ttl fetch table)
  unfolding refetch
  refetch-Failed failing now ttl k none table h = (refl, refl, refl)
  refetch-Failed failing now ttl k (some v) table h = cc

  lookup_then-Failed :
      (failing : Bool) (now ttl : ℕ) (k : K) (fetch : Option T) (table : Dict K (Row B))
      (o : Option B)
      → Failed fetch table (lookup_then adapter failing now k ttl fetch table o)
  unfolding lookup_then
  lookup_then-Failed failing now ttl k fetch table none =
      refetch-Failed failing now ttl k fetch table
  lookup_then-Failed failing now ttl k fetch table (some raw) =
      elim (Option-cases (adapter.validate raw)) [
        | inl bad ↦ rw (bad, validated) (refetch-Failed failing now ttl k fetch table)
        | inr (v, good) ↦ rw (good, validated) (λ h. cc)
      ]

  -- A cached call has no result only where the client was asked and raised; a failing or unreadable
  -- cache is no failure.
  pub cached-none :
      (read_fails write_fails : Bool) (now ttl : ℕ) (k : K) (fetch : Option T)
      (table : Dict K (Row B))
      → (cached adapter read_fails write_fails now ttl k fetch table).result ≡ none
      → (fetch ≡ none)
        × ((cached adapter read_fails write_fails now ttl k fetch table).fetched ≡ true)
        × ((cached adapter read_fails write_fails now ttl k fetch table).table ≡ table)
  unfolding cached
  cached-none read_fails write_fails now ttl k fetch table = elim (Bool-cases (leb ttl 0)) [
    | inl off ↦ rw (off, cached) (λ h. (h, refl, refl))
    | inr on ↦
        rw (on, cached)
          (lookup_then-Failed write_fails now ttl k fetch table (Store.get read_fails now k table))
  ]
