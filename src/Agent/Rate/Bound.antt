-- ===== src/Agent/Rate/Bound.antt =====
-- How many calls a token bucket lets through.
use native.Mathlib.Nat.{mul-zero, mul-add, mul-one}
use chic_mcp.Prelude.{
  ℕ, ◌+◌, ◌-◌, ◌*◌, ◌≤◌, ◌≡◌, refl, sym, subst, ◌∙◌, true, false, some, List, [], ◌∷◌, ◌==◌, nat_eq,
  Bool-cases, inl, inr, arith,
}
use chic_mcp.Prelude.Int.{ℤ, pos, ◌+ℤ◌, ◌-ℤ◌, ◌≤ℤ◌, ltb_ℤ, int_laws}
use chic_mcp.Prelude.Dict.{get, put, get-put}
use chic_mcp.Agent.Rate.{Buckets, token, refilled, allow, allowed}
use chic_mcp.Agent.Rate.Refill.{
  credit, Past, stretch, refilled-credit, credit-grows, credit-now, credit-Positive,
  refilled-Positive, not-low,
}

-- The clock of the calls does not go back, and starts at `from`.
abbrev pub Ordered : ℕ → List (ℕ × ℕ) → Type 0
Ordered from [] = Unit
Ordered from ((user_id, now_ts) ∷ calls) = (from ≤ now_ts) × Ordered now_ts calls

-- The time of the last call
abbrev pub last_time : ℕ → List (ℕ × ℕ) → ℕ
last_time from [] = from
last_time from ((user_id, now_ts) ∷ calls) = last_time now_ts calls

module _ (hz per_hour user : ℕ) where
  spent : List (ℕ × ℕ) → Buckets → ℕ
  spent calls buckets = token hz * allowed hz (pos per_hour) user calls buckets

  allow-other :
      (user_id now_ts : ℕ) (buckets : Buckets)
      → user_id == user ≡ false
      → get ((allow hz (pos per_hour) user_id now_ts buckets).1) user ≡ get buckets user
  unfolding allow
  allow-other user_id now_ts buckets h =
      let r = refilled hz per_hour (get buckets user_id) now_ts in
      elim (Bool-cases (ltb_ℤ r (pos (token hz)))) [
        | inl low ↦ rw (low, allow) (get-put buckets user_id user (r, now_ts) ∙ rw h refl)
        | inr enough ↦
            rw (enough, allow)
              (get-put buckets user_id user (r -ℤ pos (token hz), now_ts) ∙ rw h refl)
      ]

  spent-other :
      (user_id now_ts : ℕ) (calls : List (ℕ × ℕ)) (buckets : Buckets)
      → user_id == user ≡ false
      → spent ((user_id, now_ts) ∷ calls) buckets
        ≡ spent calls ((allow hz (pos per_hour) user_id now_ts buckets).1)
  unfolding spent allowed
  spent-other user_id now_ts calls buckets h = rw (h, allowed) refl

  -- The bucket of the user before a call is judged
  abbrev own_tokens : ℕ → Buckets → ℤ
  own_tokens now_ts buckets = refilled hz per_hour (get buckets user) now_ts

  spent-denied :
      (now_ts : ℕ) (calls : List (ℕ × ℕ)) (buckets : Buckets)
      → ltb_ℤ (own_tokens now_ts buckets) (pos (token hz)) ≡ true
      → spent ((user, now_ts) ∷ calls) buckets
        ≡ spent calls (put buckets user (own_tokens now_ts buckets, now_ts))
  unfolding spent allowed allow
  spent-denied now_ts calls buckets h =
      rw ((nat_eq.same_iff user user).1 refl, allowed) (rw (h, allow) refl)

  spent-allowed :
      (now_ts : ℕ) (calls : List (ℕ × ℕ)) (buckets : Buckets)
      → ltb_ℤ (own_tokens now_ts buckets) (pos (token hz)) ≡ false
      → spent ((user, now_ts) ∷ calls) buckets
        ≡ token hz
          + spent calls (put buckets user (own_tokens now_ts buckets -ℤ pos (token hz), now_ts))
  unfolding spent allowed allow
  spent-allowed now_ts calls buckets h =
      rw ((nat_eq.same_iff user user).1 refl, allowed)
        (rw (h, allow) (mul-add (token hz) 1 _ ∙ rw (mul-one (token hz)) refl))

  last_time-le :
      (from : ℕ) (calls : List (ℕ × ℕ)) → Ordered from calls → from ≤ last_time from calls
  last_time-le from [] o = omega arith
  last_time-le from ((user_id, now_ts) ∷ calls) o =
      omega (arith, o.0, last_time-le now_ts calls o.1)

  get-put_own : (buckets : Buckets) (b : ℤ × ℕ) → get (put buckets user b) user ≡ some b
  get-put_own buckets b = get-put buckets user user b ∙ rw ((nat_eq.same_iff user user).1 refl) refl

  own-Past :
      (now_ts : ℕ) (buckets : Buckets) (r : ℤ)
      → pos 0 ≤ℤ r
      → Past (get (put buckets user (r, now_ts)) user) now_ts
  own-Past now_ts buckets r h =
      subst (λ b. Past b now_ts) (sym (get-put_own buckets (r, now_ts))) (omega arith, h)

  settled :
      (now_ts : ℕ) (calls : List (ℕ × ℕ)) (buckets : Buckets) (r : ℤ)
      → pos 0 ≤ℤ r
      → pos (spent calls (put buckets user (r, now_ts)))
        ≤ℤ credit hz per_hour (get (put buckets user (r, now_ts)) user) now_ts
          +ℤ pos ((last_time now_ts calls - now_ts) * per_hour)
      → pos (spent calls (put buckets user (r, now_ts)))
        ≤ℤ r +ℤ pos ((last_time now_ts calls - now_ts) * per_hour)
  settled now_ts calls buckets r h ih =
      let held =
        subst
          (λ b.
            pos (spent calls (put buckets user (r, now_ts)))
            ≤ℤ credit hz per_hour b now_ts +ℤ pos ((last_time now_ts calls - now_ts) * per_hour))
          (get-put_own buckets (r, now_ts)) ih in
      omega (int_laws, held, credit-now hz per_hour r now_ts)

  spent-nil : (buckets : Buckets) → spent [] buckets ≡ 0
  unfolding spent allowed
  spent-nil buckets = mul-zero (token hz)

  -- Over calls whose clock does not go back, the tokens of the calls let through are at most what the
  -- bucket holds at the start and the refill until the last call.
  spent-le :
      (calls : List (ℕ × ℕ)) (buckets : Buckets) (from : ℕ)
      → Past (get buckets user) from
      → Ordered from calls
      → pos (spent calls buckets)
        ≤ℤ credit hz per_hour (get buckets user) from
          +ℤ pos ((last_time from calls - from) * per_hour)
  spent-le [] buckets from p o =
      rw (spent-nil buckets)
        (omega (int_laws, credit-Positive hz per_hour (get buckets user) from p))
  spent-le ((user_id, now_ts) ∷ calls) buckets from p o =
      let span =
        stretch from now_ts (last_time now_ts calls) per_hour o.0 (last_time-le now_ts calls o.1) in
      elim (Bool-cases (user_id == user)) [
        | inl own ↦
            let r = own_tokens now_ts buckets in
            let filled = refilled-credit hz per_hour (get buckets user) from now_ts p o.0 in
            let whole = refilled-Positive hz per_hour (get buckets user) from now_ts p o.0 in
            rw ((nat_eq.same_iff user_id user).0 own)
              (elim (Bool-cases (ltb_ℤ r (pos (token hz)))) [
                | inl low ↦
                    let rest = settled now_ts calls buckets r whole (
                      spent-le calls (put buckets user (r, now_ts)) now_ts
                        (own-Past now_ts buckets r whole) o.1) in
                    rw (spent-denied now_ts calls buckets low)
                      (omega (int_laws, rest, filled, span))
                | inr enough ↦
                    let left = r -ℤ pos (token hz) in
                    let solvent : pos 0 ≤ℤ left =
                      omega (int_laws, not-low r (pos (token hz)) enough) in
                    let rest = settled now_ts calls buckets left solvent (
                      spent-le calls (put buckets user (left, now_ts)) now_ts
                        (own-Past now_ts buckets left solvent) o.1) in
                    rw (spent-allowed now_ts calls buckets enough)
                      (omega (int_laws, rest, filled, span))
              ])
        | inr other ↦
            let grown = credit-grows hz per_hour (get buckets user) from now_ts p o.0 in
            let next = (allow hz (pos per_hour) user_id now_ts buckets).1 in
            let same = allow-other user_id now_ts buckets other in
            let rest =
              spent-le calls next now_ts (subst (λ b. Past b now_ts) (sym same) grown.1) o.1 in
            let kept : pos (spent calls next)
                ≤ℤ credit hz per_hour (get buckets user) now_ts
                  +ℤ pos ((last_time now_ts calls - now_ts) * per_hour) =
              subst
                (λ b.
                  pos (spent calls next)
                  ≤ℤ credit hz per_hour b now_ts
                    +ℤ pos ((last_time now_ts calls - now_ts) * per_hour))
                same rest in
            rw (spent-other user_id now_ts calls buckets other)
              (omega (int_laws, kept, grown.0, span))
      ]

-- Whoever calls when, as long as the clock does not go back: a user is let through at most `per_hour`
-- times at once and `per_hour` times an hour after that, here in steps of a token.
pub allowed-le :
    (hz per_hour user from : ℕ) (calls : List (ℕ × ℕ))
    → Ordered from calls
    → token hz * allowed hz (pos per_hour) user calls []
      ≤ per_hour * token hz + (last_time from calls - from) * per_hour
unfolding get spent
allowed-le hz per_hour user from calls o =
    omega (int_laws, spent-le hz per_hour user calls [] from tt o)
