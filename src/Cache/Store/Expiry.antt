-- ===== src/Cache/Store/Expiry.antt =====
-- What can be read after a write, and after a purge.
use chic_mcp.Prelude.{
  ℕ, ◌+◌, ◌/◌, ◌≤◌, ◌<◌, ◌≡◌, refl, Bool, true, false, none, some, [], ◌∷◌, ltb, Eq, ◌==◌,
  if◌then◌else◌, arith, length,
}
use chic_mcp.Prelude.Dict
use chic_mcp.Prelude.Dict.{Dict, get-put}
use chic_mcp.Cache.Store.{Row, select_live, get, set, delete_expired, purge}

module _ {K V : Type 0} ⦃e : Eq K⦄ where
  -- A value that was stored is read back until its second of expiry, and a store under one key
  -- changes no other key.
  pub get-set :
      (stored now ttl : ℕ) (k j : K) (v : V) (table : Dict K (Row V))
      → 0 < ttl
      → get false now j (set false stored k v ttl table) ≡ (
          if k == j
          then (if ltb (now / 1000) ((stored + ttl) / 1000) then some v else none)
          else get false now j table)
  unfolding get set
  get-set stored now ttl k j v table h =
      ground (arith, get-put table k j (record { value = v; expires_at = (stored + ttl) / 1000 }))

  -- The keys of a table are distinct (`key TEXT PRIMARY KEY`).
  abbrev pub Distinct : Dict K (Row V) → Type 0
  Distinct [] = Unit
  Distinct ((k, r) ∷ table) = (Dict.get table k ≡ none) × Distinct table

  get_deleted :
      (now : ℕ) (k : K) (table : Dict K (Row V))
      → Dict.get table k ≡ none
      → Dict.get (delete_expired now table) k ≡ none
  unfolding delete_expired Dict.get
  get_deleted now k [] h = refl
  get_deleted now k ((j, r) ∷ table) h = ground (arith, get_deleted now k table)

  select-delete_expired :
      (now later : ℕ) (k : K) (table : Dict K (Row V))
      → now / 1000 ≤ later / 1000
      → Distinct table
      → select_live later (Dict.get (delete_expired now table) k)
        ≡ select_live later (Dict.get table k)
  unfolding delete_expired select_live Dict.get
  select-delete_expired now later k [] h d = refl
  select-delete_expired now later k ((j, r) ∷ table) h d = ground (
    arith,
    select-delete_expired now later k table h d.1,
    e.same_iff j k,
    get_deleted now j table,
  )

  length-delete_expired :
      (now : ℕ) (table : Dict K (Row V))
      → length (delete_expired now table) + (purge false now table).1 ≡ length table
  unfolding delete_expired purge
  length-delete_expired now [] = refl
  length-delete_expired now ((k, r) ∷ table) = ground (arith, length-delete_expired now table)

  -- A purge removes as many rows as it reports, and none that a read at the same time or later could
  -- have returned.
  pub get-purge :
      (failing : Bool) (now later : ℕ) (k : K) (table : Dict K (Row V))
      → now ≤ later
      → Distinct table
      → (get false later k (purge failing now table).0 ≡ get false later k table)
        × (length (purge failing now table).0 + (purge failing now table).1 ≡ length table)
  unfolding get purge
  get-purge true now later k table h d = (refl, omega arith)
  get-purge false now later k table h d =
      (select-delete_expired now later k table (omega arith) d, length-delete_expired now table)
