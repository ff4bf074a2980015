-- ===== src/Moysklad/Client/Transport/Attempts.antt =====
-- What `_do_get` returns, raises, requests and waits, in terms of the verdict on each reply.
use chic_mcp.Prelude.{
  ℕ, zero, suc, ◌+◌, ◌≤◌, ◌<◌, ◌≡◌, Bool, true, false, ◌&&◌, Option, none, some, List, [], ◌++◌,
  ltb, leb, ◌==◌, nat_eq, if◌then◌else◌, arith,
}
use native.Mathlib.Numerals.{add-one}
use mathlib.Core.List.{append-nil, append_assoc}
use chic_mcp.Prelude.Int.{ℤ, pos}
use chic_mcp.Moysklad.Errors.{parse_api_error}
use chic_mcp.Moysklad.Client.Transport.{
  Reply, http_error, response, Response, Failure, network, api, type_error, Outcome, returned,
  raised, Run, retry_after, backoff, stop, after, exhausted, on_reply, attempts, do_get,
}

-- A reply ends the call, or may be tried again: after a network failure, or after a response.
pub data Verdict : Type 0 where
  final : Outcome → Verdict
  again : Bool → Failure → ℤ → Verdict

refusal : Response → Verdict
refusal r = elim (parse_api_error r.status r.body) [
  | none ↦ final (raised type_error)
  | some e ↦ final (raised (api e))
]

transient : Response → ℤ → Verdict
transient r retry = elim (parse_api_error r.status r.body) [
  | none ↦ final (raised type_error)
  | some e ↦ again true (api e) retry
]

unfoldable pub verdict : Reply → Verdict
unfolding refusal transient
verdict (http_error e) = again false (network e) (pos 0)
verdict (response r) =
    if leb 200 r.status && ltb r.status 300
    then final (returned r.body)
    else if r.status == 429
    then transient r (retry_after r.headers)
    else if leb 500 r.status
    then transient r (pos 0)
    else refusal r

module _ (base_delay max_retries : ℕ) where
  on_reply-final :
      (attempt : ℕ) (r : Reply) (o : Outcome) (continue : Option Failure → Run)
      → verdict r ≡ final o
      → on_reply base_delay max_retries attempt r continue ≡ stop o
  unfolding on_reply verdict
  on_reply-final attempt (http_error e) o continue h = ground arith
  on_reply-final attempt (response r) o continue h = ground arith

  on_reply-again :
      (attempt : ℕ) (r : Reply) (answered : Bool) (f : Failure) (d : ℤ)
      (continue : Option Failure → Run)
      → verdict r ≡ again answered f d
      → on_reply base_delay max_retries attempt r continue ≡ (
          if answered && attempt == max_retries
          then stop (raised f)
          else after (backoff base_delay attempt d) (continue (some f)))
  unfolding on_reply verdict
  on_reply-again attempt (http_error e) answered f d continue h = ground arith
  on_reply-again attempt (response r) answered f d continue h = ground arith

-- The reply may be tried again.
abbrev pub Again : Reply → Type 0
Again r = (answered : Bool) × (f : Failure) × (d : ℤ) × (verdict r ≡ again answered f d)

wait_of : ℕ → ℕ → Reply → List ℕ
wait_of base_delay attempt r = elim (verdict r) [
  | final o ↦ []
  | again answered f d ↦ backoff base_delay attempt d
]

-- The waits after n attempts in a row, from `attempt` on.
pub waits_for : ℕ → (ℕ → Reply) → ℕ → ℕ → List ℕ
waits_for base_delay replies attempt zero = []
waits_for base_delay replies attempt (suc n) =
    wait_of base_delay attempt (replies attempt) ++ waits_for base_delay replies (suc attempt) n

module _ (base_delay max_retries : ℕ) (replies : ℕ → Reply) where
  attempts-final :
      (n left attempt k : ℕ) (last_err : Option Failure) (o : Outcome)
      → attempt + left ≡ max_retries + 1
      → n < left
      → k ≡ attempt + n
      → ((j : ℕ) → attempt ≤ j → j < k → Again (replies j))
      → verdict (replies k) ≡ final o
      → attempts base_delay max_retries replies left attempt last_err
        ≡ record { outcome = o; requests = suc n; waits = waits_for base_delay replies attempt n }
  unfolding attempts waits_for wait_of
  attempts-final n zero attempt k last_err o size short e before h = absurd (omega arith)
  attempts-final zero (suc left) attempt k last_err o size short e before h =
      let here : k ≡ attempt = omega arith in
      on_reply-final base_delay max_retries attempt (replies attempt) o _ (rw here at h)
  attempts-final (suc n) (suc left) attempt k last_err o size short e before h =
      let (answered, f, d, v) = before attempt (omega arith) (omega arith) in
      let more : (attempt == max_retries) ≡ false = ground arith in
      let ih =
        attempts-final n left (suc attempt) k (some f) o (omega arith) (omega arith) (omega arith)
          (λ j a b. before j (omega arith) b) h in
      ground (
        arith,
        on_reply-again base_delay max_retries attempt (replies attempt) answered f d
            (attempts base_delay max_retries replies left (suc attempt)) v,
        ih,
        more,
        v,
      )

  attempts-exhausted :
      (left attempt : ℕ) (last_err : Option Failure) (answered : Bool) (f : Failure) (d : ℤ)
      → attempt + suc left ≡ max_retries + 1
      → ((j : ℕ) → attempt ≤ j → j ≤ max_retries → Again (replies j))
      → verdict (replies max_retries) ≡ again answered f d
      → attempts base_delay max_retries replies (suc left) attempt last_err ≡ record {
        outcome = raised f;
        requests = suc left;
        waits =
            waits_for base_delay replies attempt left
            ++ (if answered then [] else backoff base_delay max_retries d);
      }
  unfolding attempts waits_for wait_of exhausted
  attempts-exhausted zero attempt last_err answered f d size before h =
      let here : attempt ≡ max_retries = omega arith in
      let v : verdict (replies attempt) ≡ again answered f d = rw here h in
      rw (← here) (
        ground (
          arith,
          on_reply-again base_delay attempt attempt (replies attempt) answered f d
              (λ (e : Option Failure). exhausted e) v,
          append-nil (backoff base_delay attempt d),
        ))
  attempts-exhausted (suc left) attempt last_err answered f d size before h =
      let (answered', f', d', v) = before attempt (omega arith) (omega arith) in
      let more : (attempt == max_retries) ≡ false = ground arith in
      let ih =
        attempts-exhausted left (suc attempt) (some f') answered f d (omega arith)
          (λ j a b. before j (omega arith) b) h in
      ground (
        arith,
        on_reply-again base_delay max_retries attempt (replies attempt) answered' f' d'
            (attempts base_delay max_retries replies (suc left) (suc attempt)) v,
        ih,
        more,
        v,
        append_assoc (backoff base_delay attempt d')
            (waits_for base_delay replies (suc attempt) left)
            (if answered then [] else backoff base_delay max_retries d),
      )

  -- If the replies before number k may be tried again and number k ends the call, k at most
  -- `max_retries`, then `_do_get` ends with that reply's outcome after k + 1 requests, and has waited
  -- as `_backoff` says after each of the k others.
  pub do_get-final :
      (k : ℕ) (o : Outcome)
      → k ≤ max_retries
      → ((j : ℕ) → j < k → Again (replies j))
      → verdict (replies k) ≡ final o
      → do_get base_delay max_retries replies
        ≡ record { outcome = o; requests = suc k; waits = waits_for base_delay replies 0 k }
  unfolding do_get
  do_get-final k o short before h = rw (add-one max_retries) (
      attempts-final k (suc max_retries) 0 k none o (omega arith) (omega arith) (omega arith)
        (λ j _ b. before j b) h)

  -- If every reply may be tried again, `_do_get` makes `max_retries + 1` requests and raises the last
  -- reply's failure. After a last response it does not wait; after a last network failure it does.
  pub do_get-exhausted :
      (answered : Bool) (f : Failure) (d : ℤ)
      → ((j : ℕ) → j ≤ max_retries → Again (replies j))
      → verdict (replies max_retries) ≡ again answered f d
      → do_get base_delay max_retries replies ≡ record {
        outcome = raised f;
        requests = suc max_retries;
        waits =
            waits_for base_delay replies 0 max_retries
            ++ (if answered then [] else backoff base_delay max_retries d);
      }
  unfolding do_get
  do_get-exhausted answered f d before h =
      rw (add-one max_retries)
        (attempts-exhausted max_retries 0 none answered f d (omega arith) (λ j _ b. before j b) h)
