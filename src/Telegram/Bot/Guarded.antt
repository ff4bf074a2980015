-- ===== src/Telegram/Bot/Guarded.antt =====
-- What does not get through to the agent: updates of strangers, and updates that come again.
use mathlib.Core.List
use chic_mcp.Prelude.{
  ℕ, ◌<◌, ◌≡◌, ◌≢◌, refl, ap, subst, ◌∙◌, Bool, true, false, Option, none, some, List, [], ◌∷◌, All,
  All-append, map, length, nat_eq, if◌then◌else◌, Option-cases, inl, inr,
}
use chic_mcp.Prelude.Sets.{contains}
use chic_mcp.Prelude.Text.{codes}
use chic_mcp.Telegram.Dedupe.{Dedupe, first_seen, run}
use chic_mcp.Telegram.Dedupe.Window.{IsValid}
use chic_mcp.Telegram.Dedupe.Redelivery.{redelivery_dropped}
use chic_mcp.Telegram.Bot.{
  Event, message, press, Action, send, answer_press, drop_keyboard, edit, rate, Side, Done, Setup,
  say,
}
use chic_mcp.Telegram.Bot.Updates.{
  turned_away, is_allowed, user_of, allowlist, feed_update, follow, feed_all,
}

-- A notice that the bot is private, or an empty answer to a press
abbrev pub IsNotice : Action → Type 0
IsNotice (send chat text markup) = (text ≡ codes "Извините, этот бот приватный.") × (markup ≡ none)
IsNotice (answer_press text) = text ≡ ""
IsNotice drop_keyboard = ⊥
IsNotice (edit text markup) = ⊥
IsNotice (rate span rating user_id chat) = ⊥

-- The sender is unknown or not on the list.
abbrev pub IsStranger : Setup → Event → Type 0
IsStranger b e = is_allowed b (user_of e) ≡ false

-- Only notices were sent, and nothing changed.
abbrev pub IsTurnedAway : Side → Option (Done × Dedupe) → Type 0
IsTurnedAway s none = Unit
IsTurnedAway s (some ((actions, s'), d)) = All IsNotice actions × (s' ≡ s)

run-cons :
    (i : ℕ) (ids : List ℕ) (d d' : Dedupe) (fresh : List Bool)
    → run d (i ∷ ids) ≡ some (d', fresh)
    → (d₁ : Dedupe) × (first : Bool) × (rest : List Bool) × (first_seen d i ≡ some (d₁, first))
      × (run d₁ ids ≡ some (d', rest))
unfolding run
run-cons i ids d d' fresh h = elim (Option-cases (first_seen d i)) [
  | inl fails ↦ absurd (cc (rw (run, fails) at h))
  | inr ((d₁, first), seen) ↦ elim (Option-cases (run d₁ ids)) [
    | inl fails ↦ absurd (cc (rw (run, seen, fails) at h))
    | inr ((d₂, rest), ran) ↦
        let same : d₂ ≡ d' = cc (rw (run, seen, ran) at h) in
        (d₁, first, rest, seen, ran ∙ ap (λ x. some (x, rest)) same)
  ]
]

module _ (b : Setup) where
  feed_update_seen :
      (i : ℕ) (e : Event) (d d₁ : Dedupe) (s : Side) (first : Bool)
      → first_seen d i ≡ some (d₁, first)
      → feed_update b (i, e) d s ≡ some ((if first then allowlist b e s else ([], s)), d₁)
  unfolding feed_update
  feed_update_seen i e d d₁ s first seen = rw (feed_update, seen) refl

  notices : (e : Event) → All IsNotice (turned_away e)
  unfolding turned_away say
  notices (message m) = ((refl, refl), tt)
  notices (press p) = (refl, tt)

  allowlist-notices :
      (e : Event) (s : Side)
      → IsStranger b e
      → All IsNotice (allowlist b e s).0 × ((allowlist b e s).1 ≡ s)
  unfolding allowlist
  allowlist-notices e s h = rw h (notices e, refl)

  follow-IsTurnedAway :
      (actions : List Action) (s : Side) (r : Option (Done × Dedupe))
      → All IsNotice actions
      → IsTurnedAway s r
      → IsTurnedAway s (follow actions r)
  unfolding follow
  follow-IsTurnedAway actions s none h t = tt
  follow-IsTurnedAway actions s (some ((more, s'), d)) h t =
      (All-append IsNotice actions more h t.0, t.1)

  feed_update-IsTurnedAway :
      (i : ℕ) (e : Event) (d : Dedupe) (s : Side)
      → IsStranger b e
      → IsTurnedAway s (feed_update b (i, e) d s)
  unfolding feed_update
  feed_update-IsTurnedAway i e d s h = elim (Option-cases (first_seen d i)) [
    | inl fails ↦ rw (fails, feed_update) tt
    | inr ((d', fresh), seen) ↦ rw (seen, feed_update) (by_fresh fresh)
  ]
    where
      by_fresh :
          (fresh : Bool)
          → All IsNotice (if fresh then allowlist b e s else ([], s)).0
            × ((if fresh then allowlist b e s else ([], s)).1 ≡ s)
      by_fresh true = allowlist-notices e s h
      by_fresh false = (tt, refl)

  -- Whatever strangers send, if the ring of update ids raises no IndexError, the bot answers with
  -- notices that it is private or not at all, and neither the agent's limiter nor the database
  -- changes.
  pub feed_all-IsTurnedAway :
      (us : List (ℕ × Event)) (d : Dedupe) (s : Side)
      → All (λ u. IsStranger b (u.1)) us
      → IsTurnedAway s (feed_all b us d s)
  unfolding feed_all
  feed_all-IsTurnedAway [] d s h = (tt, refl)
  feed_all-IsTurnedAway ((i, e) ∷ us) d s h = elim (Option-cases (feed_update b (i, e) d s)) [
    | inl fails ↦ rw (fails, feed_all) tt
    | inr (((actions, s'), d'), step) ↦
        let first = subst (IsTurnedAway s) step (feed_update-IsTurnedAway i e d s h.0) in
        rw (step, feed_all)
          (follow-IsTurnedAway actions s (feed_all b us d' s') first.0 (
            subst (λ x. IsTurnedAway x (feed_all b us d' s')) first.1
              (feed_all-IsTurnedAway us d' s' h.1)))
  ]

  -- The ring of a stream of updates is that of their ids.
  feed_all-run :
      (us : List (ℕ × Event)) (d d' : Dedupe) (s : Side) (fresh : List Bool)
      → run d (map (λ u. u.0) us) ≡ some (d', fresh)
      → (done : Done) × (feed_all b us d s ≡ some (done, d'))
  unfolding feed_all run
  feed_all-run [] d d' s fresh h =
      let same : d ≡ d' = cc in (([], s), ap (λ x. some (([], s), x)) same)
  feed_all-run ((i, e) ∷ us) d d' s fresh h =
      let (d₁, first, rest, seen, ran) = run-cons i (map (λ u. u.0) us) d d' fresh h in
      let now = if first then allowlist b e s else ([], s) in
      let ((more, s'), fed) = feed_all-run us d₁ d' (now.1) rest ran in
      (
        (List.◌++◌ (now.0) more, s'),
        rw (feed_update_seen i e d d₁ s first seen, feed_all, fed, follow) refl,
      )

  -- A new update that comes again, with fewer others in between than the ring has slots, does
  -- nothing the second time, whatever the others were.
  pub feed_update-again :
      (i : ℕ) (e again : Event) (us : List (ℕ × Event)) (d : Dedupe) (s : Side)
      → IsValid d
      → i ≢ 0
      → All (λ j. j ≢ 0) (map (λ u. u.0) us)
      → contains d.seen i ≡ false
      → length (map (λ u. u.0) us) < length d.ring
      → (actions : List Action) × (s' : Side) × (d' : Dedupe) × (feed_all b ((i, e) ∷ us) d s
          ≡ some ((actions, s'), d'))
        × (feed_update b (i, again) d' s' ≡ some (([], s'), d'))
  unfolding feed_update
  feed_update-again i e again us d s v n ns new short =
      let (d', fresh, ran, seen) = redelivery_dropped d i (map (λ u. u.0) us) v n ns new short in
      let ((actions, s'), fed) = feed_all-run ((i, e) ∷ us) d d' s (true ∷ fresh) ran in
      (actions, s', d', fed, rw (feed_update, seen) refl)
