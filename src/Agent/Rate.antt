-- ===== src/Agent/Rate.antt =====
-- `_RateLimiter` of chic/agent/agent.py. Time is in ticks of 1/`hz` second and tokens in steps of
-- 1/(3600 · `hz`), so that the refill, `per_hour` tokens an hour, is `per_hour` steps a tick.
pub mod Bound
pub mod Refill
use chic_mcp.Prelude.{
  ℕ, ◌+◌, ◌-◌, ◌*◌, min, Bool, true, false, Option, none, some, List, [], ◌∷◌, leb, ◌==◌, nat_eq,
  if◌then◌else◌,
}
use chic_mcp.Prelude.Int.{ℤ, pos, negsuc, ◌+ℤ◌, ◌-ℤ◌, leb_ℤ, ltb_ℤ}
use chic_mcp.Prelude.Dict.{Dict, get, put}

-- `_buckets`: the tokens and the time of the last call of each user
abbrev pub Buckets : Type 0
Buckets = Dict ℕ (ℤ × ℕ)

-- One token
abbrev pub token : ℕ → ℕ
token hz = 3600 * hz

-- `tokens + (now_ts - last) * refill`; a clock that goes back takes tokens away.
unfoldable pub elapsed : ℕ → ℤ → ℕ → ℕ → ℤ
elapsed per_hour tokens last now_ts =
    if leb last now_ts
    then tokens +ℤ pos ((now_ts - last) * per_hour)
    else tokens -ℤ pos ((last - now_ts) * per_hour)

unfoldable pub min_ℤ : ℤ → ℤ → ℤ
min_ℤ a b = if leb_ℤ a b then a else b

-- The bucket before a call is judged
unfoldable pub refilled : ℕ → ℕ → Option (ℤ × ℕ) → ℕ → ℤ
unfolding min_ℤ elapsed
refilled hz per_hour none now_ts =
    min_ℤ (pos (per_hour * token hz)) (elapsed per_hour (pos (per_hour * token hz)) now_ts now_ts)
refilled hz per_hour (some (tokens, last)) now_ts =
    min_ℤ (pos (per_hour * token hz)) (elapsed per_hour tokens last now_ts)

-- `allow`, with the limiter's state
unfoldable pub allow : ℕ → ℤ → ℕ → ℕ → Buckets → Bool × Buckets
unfolding refilled
allow hz (negsuc k) user_id now_ts buckets = (true, buckets)
allow hz (pos per_hour) user_id now_ts buckets =
    let tokens = refilled hz per_hour (get buckets user_id) now_ts in
    if ltb_ℤ tokens (pos (token hz))
    then (false, put buckets user_id (tokens, now_ts))
    else (true, put buckets user_id (tokens -ℤ pos (token hz), now_ts))

-- A sequence of calls `(user_id, now_ts)` and the number of those of one user that were allowed
unfoldable pub allowed : ℕ → ℤ → ℕ → List (ℕ × ℕ) → Buckets → ℕ
allowed hz per_hour user [] buckets = 0
allowed hz per_hour user ((user_id, now_ts) ∷ calls) buckets =
    let answer = allow hz per_hour user_id now_ts buckets in
    let rest = allowed hz per_hour user calls (answer.1) in
    if user_id == user then (if answer.0 then 1 + rest else rest) else rest
