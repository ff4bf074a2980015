-- ===== src/Cache/Tests.antt =====
-- chic/cache: runs at concrete inputs.
use chic_mcp.Prelude.{
  ℕ, zero, suc, ◌≡◌, refl, arith, true, false, some, none, Option, [], ◌∷◌, ◌==◌, nat_eq,
  if◌then◌else◌, ltb, ◌+◌, ◌/◌, ◌<◌, length,
}
use chic_mcp.Prelude.Dict
use chic_mcp.Prelude.Dict.{Dict}
use chic_mcp.Prelude.Text.{codes}
use chic_mcp.Cache.Store.{Row, get, set, purge}
use chic_mcp.Cache.Store.Expiry.{get-set, get-purge}
use chic_mcp.Cache.Client.{Adapter, cached}
use chic_mcp.Cache.Client.Transparent.{IsFaithful, Answers, cached-IsFaithful, cached-none}
use chic_mcp.Cache.Client.Calls.{default_ttls, get_dashboard_call}
use chic_mcp.Cache.Client.Calls.Keys.{request-injective}

cache_code : Unit {0}
unfolding get set purge cached Dict.get Dict.put
cache_code = tt

abbrev numbers : Adapter ℕ ℕ
numbers = record { dump = λ v. suc v; validate = λ b. elim b [ zero ↦ none | suc v ↦ some v ] }

abbrev table : Dict ℕ (Row ℕ)
table = (3, record { value = 11; expires_at = 20 }) ∷ (4, record { value = 0; expires_at = 9 }) ∷ []

abbrev three : ℕ
three = 3

-- A hit, a stale row, and bytes that do not validate.
hit :
    cached numbers false false 19000 5000 3 none table
    ≡ record { result = some 10; table = table; fetched = false }
unfolding cache_code
hit = refl

stale : (cached numbers false false 20000 5000 3 (some 7) table).result ≡ some 7
unfolding cache_code
stale = refl

invalid : (cached numbers false false 5000 5000 4 (some 7) table).result ≡ some 7
unfolding cache_code
invalid = refl

get-set_example : get false 12345 three (set false 5000 three 8 9000 table) ≡ (
    if three == three
    then (if ltb (12345 / 1000) ((5000 + 9000) / 1000) then some 8 else none)
    else get false 12345 three table)
get-set_example = get-set 5000 12345 9000 3 3 8 table (omega arith)

get-purge_example :
    (get false 10000 3 (purge false 9500 table).0 ≡ get false 10000 3 table)
    × (length (purge false 9500 table).0 + (purge false 9500 table).1 ≡ length table)
unfolding cache_code
get-purge_example = get-purge false 9500 10000 3 table (omega arith) (refl, (refl, tt))

abbrev IsSmall : ℕ → ℕ → Type 0
IsSmall k v = v < 100

round_trip : (v : ℕ) → numbers.validate (numbers.dump v) ≡ some v
round_trip v = ground arith

IsFaithful-empty : IsFaithful {K = ℕ} numbers round_trip IsSmall []
unfolding cache_code
IsFaithful-empty = record { stored = λ k r p. absurd (ground arith) }

cached-IsFaithful_example :
    IsFaithful {K = ℕ} numbers round_trip IsSmall
      (cached numbers false true 1 5000 three (some 7) []).table
    × Answers {K = ℕ} numbers round_trip IsSmall 3
        (cached numbers false true 1 5000 three (some 7) []).result
cached-IsFaithful_example =
    cached-IsFaithful {K = ℕ} numbers round_trip IsSmall false true 1 5000 three (some 7) []
      IsFaithful-empty (omega arith)

abbrev no_answer : Option ℕ
no_answer = none

cached-none_example :
    (no_answer ≡ none)
    × ((cached numbers true true 1 5000 three no_answer table).fetched ≡ true)
    × ((cached numbers true true 1 5000 three no_answer table).table ≡ table)
unfolding cache_code
cached-none_example = cached-none numbers true true 1 5000 three no_answer table refl

request-injective_example : get_dashboard_call (codes "day") ≡ get_dashboard_call (codes "day")
request-injective_example =
    request-injective default_ttls (get_dashboard_call (codes "day"))
      (get_dashboard_call (codes "day")) refl refl
