-- ===== src/Moysklad/Client/Transport.antt =====
-- `MoyskladClient._do_get`, `_backoff` and `_retry_after` of chic/moysklad/client.py. The replies
-- of the HTTP library are an argument, one for each attempt; a wait is a number of milliseconds.
-- The rate limiter only delays a request, and the span only records it.
pub mod Attempts
use chic_mcp.Prelude.{
  ℕ, zero, suc, ◌+◌, ◌*◌, ◌^◌, Bool, true, false, ◌&&◌, Option, none, some, List, [], ◌∷◌, ◌++◌,
  ltb, leb, ◌==◌, nat_eq, if◌then◌else◌,
}
use chic_mcp.Prelude.Int.{ℤ, pos, pos_part, ◌*ℤ◌}
use chic_mcp.Prelude.Text.{Text, is_empty, parse_int}
use chic_mcp.Prelude.Json.{Json}
use chic_mcp.Moysklad.Errors.{MoyskladError, parse_api_error}

-- The two rate-limit headers of a reply; an absent header is the empty text.
pub record Headers : Type 0 where
  pub lognex_retry_after : Text
  pub retry_after : Text

pub record Response : Type 0 where
  pub status : ℕ
  pub body : Option Json
  pub headers : Headers

-- What one `http.get` gives: a response, or an `httpx.HTTPError` (by its number).
pub data Reply : Type 0 where
  http_error : ℕ → Reply
  response : Response → Reply

pub data Failure : Type 0 where
  network : ℕ → Failure
  api : MoyskladError → Failure
  type_error : Failure
  runtime_error : Failure

pub data Outcome : Type 0 where
  returned : Option Json → Outcome
  raised : Failure → Outcome

-- A run of `_do_get`: the outcome, the requests made and the waits, first to last.
pub record Run : Type 0 where
  pub outcome : Outcome
  pub requests : ℕ
  pub waits : List ℕ

second_header : Headers → ℤ
second_header h = elim (is_empty h.retry_after) [
  | true ↦ pos 0
  | false ↦ elim (parse_int h.retry_after) [ some s ↦ s *ℤ pos 1000 | none ↦ pos 0 ]
]

-- `_retry_after`, in milliseconds.
unfoldable pub retry_after : Headers → ℤ
unfolding second_header
retry_after h = elim (is_empty h.lognex_retry_after) [
  | true ↦ second_header h
  | false ↦ elim (parse_int h.lognex_retry_after) [ some ms ↦ ms | none ↦ second_header h ]
]

-- `_backoff`: the waits that it makes.
unfoldable pub backoff : ℕ → ℕ → ℤ → List ℕ
backoff base_delay attempt retry =
    let delay = if ltb 0 (pos_part retry) then pos_part retry else base_delay * 2 ^ attempt in
    if ltb 0 delay then delay ∷ [] else []

abbrev stop : Outcome → Run
stop o = record { outcome = o; requests = 1; waits = [] }

-- One more request and its waits before a run that follows.
abbrev after : List ℕ → Run → Run
after ws r = record r { requests = suc r.requests; waits = ws ++ r.waits }

-- After the loop.
exhausted : Option Failure → Run
exhausted none = record { outcome = raised runtime_error; requests = 0; waits = [] }
exhausted (some e) = record { outcome = raised e; requests = 0; waits = [] }

-- The branches for 429 and for 5xx: raise on the last attempt, else wait and go on.
retry_response : ℕ → ℕ → ℕ → Response → ℤ → (Option Failure → Run) → Run
retry_response base_delay max_retries attempt r retry continue =
    elim (parse_api_error r.status r.body) [
      | none ↦ stop (raised type_error)
      | some e ↦
          if attempt == max_retries
          then stop (raised (api e))
          else after (backoff base_delay attempt retry) (continue (some (api e)))
    ]

reject : Response → Run
reject r = elim (parse_api_error r.status r.body) [
  | none ↦ stop (raised type_error)
  | some e ↦ stop (raised (api e))
]

-- One turn of the loop; `continue` is the rest of it, from `last_err`.
on_reply : ℕ → ℕ → ℕ → Reply → (Option Failure → Run) → Run
unfolding retry_response reject
on_reply base_delay max_retries attempt (http_error e) continue =
    after (backoff base_delay attempt (pos 0)) (continue (some (network e)))
on_reply base_delay max_retries attempt (response r) continue =
    if leb 200 r.status && ltb r.status 300
    then stop (returned r.body)
    else if r.status == 429
    then retry_response base_delay max_retries attempt r (retry_after r.headers) continue
    else if leb 500 r.status
    then retry_response base_delay max_retries attempt r (pos 0) continue
    else reject r

-- The loop over `range(max_retries + 1)`, with the rounds that are left.
attempts : ℕ → ℕ → (ℕ → Reply) → ℕ → ℕ → Option Failure → Run
unfolding exhausted
attempts base_delay max_retries replies zero attempt last_err = exhausted last_err
attempts base_delay max_retries replies (suc left) attempt last_err =
    on_reply base_delay max_retries attempt (replies attempt)
      (attempts base_delay max_retries replies left (suc attempt))

-- `_do_get`
unfoldable pub do_get : ℕ → ℕ → (ℕ → Reply) → Run
unfolding attempts on_reply
do_get base_delay max_retries replies =
    attempts base_delay max_retries replies (max_retries + 1) 0 none
