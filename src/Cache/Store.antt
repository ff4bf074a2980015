-- ===== src/Cache/Store.antt =====
-- chic/cache/store.py: the table of cached values with their expiry. `now` and the lifetimes are in
-- milliseconds, expiry in whole seconds. `failing` says that SQLite raises on this call, which each
-- method catches.
pub mod Expiry
use chic_mcp.Prelude.{
  ℕ, zero, suc, ◌+◌, ◌/◌, Bool, true, false, Option, none, some, List, [], ◌∷◌, ltb, leb, Eq, ◌==◌,
  count, if◌then◌else◌,
}
use chic_mcp.Prelude.Dict
use chic_mcp.Prelude.Dict.{Dict}

pub record Row {ℓ} (V : Type ℓ) : Type ℓ where
  pub value : V
  pub expires_at : ℕ

-- `SELECT value FROM cache WHERE key = ? AND expires_at > ?`
unfoldable pub select_live {ℓ} : {V : Type ℓ} → ℕ → Option (Row V) → Option V
select_live now none = none
select_live now (some r) = if ltb (now / 1000) r.expires_at then some r.value else none

module _ {ℓ} {K V : Type ℓ} ⦃e : Eq K⦄ where
  -- `CacheStore.get`
  unfoldable pub get : Bool → ℕ → K → Dict K (Row V) → Option V
  unfolding select_live
  get failing now key table = if failing then none else select_live now (Dict.get table key)

  -- `CacheStore.set`, an upsert
  unfoldable pub set : Bool → ℕ → K → V → ℕ → Dict K (Row V) → Dict K (Row V)
  set failing now key value ttl table =
      if leb ttl 0
      then table
      else if failing
      then table
      else Dict.put table key (record { value = value; expires_at = (now + ttl) / 1000 })

  -- `DELETE FROM cache WHERE expires_at <= ?`
  delete_expired : ℕ → Dict K (Row V) → Dict K (Row V)
  delete_expired now [] = []
  delete_expired now ((k, r) ∷ table) =
      if leb r.expires_at (now / 1000)
      then delete_expired now table
      else (k, r) ∷ delete_expired now table

  -- `CacheStore.purge`, with the number of rows removed
  unfoldable pub purge : Bool → ℕ → Dict K (Row V) → Dict K (Row V) × ℕ
  unfolding delete_expired
  purge failing now table =
      if failing
      then (table, 0)
      else (delete_expired now table, count (λ (k, r). leb r.expires_at (now / 1000)) table)
