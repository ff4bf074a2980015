-- ===== src/Cache/Client.antt =====
-- chic/cache/client.py: the caching decorator. The hash and the JSON codec are arguments; a fetch is
-- `none` where the wrapped client raises.
pub mod Calls
pub mod Transparent
use chic_mcp.Prelude.{
  ℕ, Bool, true, false, Option, none, some, List, String, leb, Eq, if◌then◌else◌,
}
use chic_mcp.Prelude.Dict.{Dict}
use chic_mcp.Cache.Store
use chic_mcp.Cache.Store.{Row}

-- `TypeAdapter`: bytes of a value, and the value of bytes unless they do not validate.
pub record Adapter (T B : Type 0) : Type 0 where
  pub dump : T → B
  pub validate : B → Option T

-- What a call of `_cached` leaves behind: its result, the table, and whether it fetched.
pub record Served (K T B : Type 0) : Type 0 where
  pub result : Option T
  pub table : Dict K (Row B)
  pub fetched : Bool

module _ {K T B : Type 0} ⦃e : Eq K⦄ (adapter : Adapter T B) where
  -- Behind a miss: fetch, and store what came.
  refetch : Bool → ℕ → K → ℕ → Option T → Dict K (Row B) → Served K T B
  refetch failing now key ttl none table = record { result = none; table = table; fetched = true }
  refetch failing now key ttl (some value) table = record {
    result = some value;
    table = Store.set failing now key (adapter.dump value) ttl table;
    fetched = true;
  }

  -- `try: return adapter.validate_json(raw)`
  validated : Bool → ℕ → K → ℕ → Option T → Dict K (Row B) → Option T → Served K T B
  unfolding refetch
  validated failing now key ttl fetch table (some value) = record {
    result = some value;
    table = table;
    fetched = false;
  }
  validated failing now key ttl fetch table none = refetch failing now key ttl fetch table

  -- `if raw is not None`
  lookup_then : Bool → ℕ → K → ℕ → Option T → Dict K (Row B) → Option B → Served K T B
  unfolding validated
  lookup_then failing now key ttl fetch table none = refetch failing now key ttl fetch table
  lookup_then failing now key ttl fetch table (some raw) =
      validated failing now key ttl fetch table (adapter.validate raw)

  -- `CachingClient._cached`; `fetch` is what the wrapped client would answer now, and the flags say
  -- whether SQLite raises on the read and on the write.
  unfoldable pub cached : Bool → Bool → ℕ → ℕ → K → Option T → Dict K (Row B) → Served K T B
  unfolding lookup_then
  cached read_fails write_fails now ttl key fetch table =
      if leb ttl 0
      then record { result = fetch; table = table; fetched = true }
      else lookup_then write_fails now key ttl fetch table (Store.get read_fails now key table)
