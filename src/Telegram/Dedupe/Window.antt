-- ===== src/Telegram/Dedupe/Window.antt =====
-- The ring refines a sliding window: the last n accepted ids, oldest first, padded by zeros.
use chic_mcp.Prelude.{
  ℕ, zero, suc, ◌+◌, ◌%◌, ◌≤◌, ◌<◌, ◌≡◌, ◌≢◌, refl, ap, ◌∙◌, Bool, true, false, not, ◌&&◌, some,
  List, [], ◌∷◌, ◌++◌, length, get_elem?, set, take, drop, replicate, length-set, ◌==◌, nat_eq,
  if◌then◌else◌, arith, length-replicate, Bool-cases, inl, inr, All, sym, drop_of_length-le,
  take_of_length-le,
}
use native.Mathlib.Decide.{dec_lt}
use native.Mathlib.Nat.{mod-eq_of_lt, mod_self}
use native.Mathlib.Numerals.{add-one}
use mathlib.Core.List.{append_assoc, append-nil}
use chic_mcp.Prelude.Sets.{
  contains, add, discard, occurrences, contains-add, contains-discard, contains-append,
  contains-eq-occurrences, occurrences-append,
}
use chic_mcp.Telegram.Dedupe.{Dedupe, init, remember, first_seen, run}

-- The ring read from the slot that is overwritten next.
abbrev pub window : Dedupe → List ℕ
window d = drop d.next d.ring ++ take d.next d.ring

abbrev pub tail : List ℕ → List ℕ
tail [] = []
tail (x ∷ xs) = xs

-- The specification: an id in the window is a repeat, any other takes the place of the oldest.
abbrev pub slide : List ℕ → ℕ → List ℕ × Bool
slide w i = if contains w i then (w, false) else (tail w ++ i ∷ [], true)

abbrev pub slides : List ℕ → List ℕ → List ℕ × List Bool
slides w [] = (w, [])
slides w (i ∷ ids) =
    let (w', fresh) = slide w i in let (w'', rest) = slides w' ids in (w'', fresh ∷ rest)

pub record IsValid (d : Dedupe) : Type 0 where
  pub in_range : d.next < length d.ring
  pub agrees : (x : ℕ) → contains d.seen x ≡ not (x == 0) && contains (window d) x
  pub distinct : (x : ℕ) → x ≢ 0 → occurrences x (window d) ≤ 1

-- What overwriting slot n does to the two halves of the ring.
split_at :
    (n : ℕ) (r : List ℕ) (i : ℕ)
    → n < length r
    → (old : ℕ) × (rest : List ℕ) × (get_elem? r n ≡ some old)
      × (drop n r ≡ old ∷ rest)
      × (drop (suc n) (set r n i) ≡ rest)
      × (take (suc n) (set r n i) ≡ take n r ++ i ∷ [])
split_at n [] i h = absurd (omega arith)
split_at zero (x ∷ r) i h = (x, r, refl, refl, refl, refl)
split_at (suc n) (x ∷ r) i h =
    let (old, rest, a, b, c, d) = split_at n r i (omega arith) in (old, rest, a, b, c, ap (◌∷◌ x) d)

-- Where the ring wraps, the slots from the first on are the whole ring.
wrap : (n : ℕ) (r : List ℕ) → suc n ≡ length r → (drop (suc n) r ≡ []) × (take (suc n) r ≡ r)
wrap n r h = (drop_of_length-le (suc n) r (omega arith), take_of_length-le (suc n) r (omega arith))

next_below : (n l : ℕ) → suc n < l → (n + 1) % l ≡ suc n
next_below n l h = rw (add-one n) (mod-eq_of_lt h)

next_wraps : (n l : ℕ) → suc n ≡ l → (n + 1) % l ≡ 0
next_wraps n l h = rw (add-one n, h) (mod_self l)

-- The window after an accepted id.
remember-window :
    (d : Dedupe) (i : ℕ)
    → d.next < length d.ring
    → (old : ℕ) × (rest : List ℕ) × (get_elem? d.ring d.next ≡ some old)
      × (window d ≡ old ∷ rest)
      × (window (remember d i old) ≡ rest ++ i ∷ [])
      × ((remember d i old).next < length (remember d i old).ring)
unfolding remember
remember-window d i h =
    let (old, rest, a, b, c, e) = split_at d.next d.ring i h in
    let w : window d ≡ old ∷ (rest ++ take d.next d.ring) = rw b in
    elim (dec_lt (suc d.next) (length d.ring)) [
      | yes p ↦
          let m : (d.next + 1) % length (set d.ring d.next i) ≡ suc d.next =
            next_below d.next _ (omega (arith, length-set d.ring d.next i)) in
          (
            old,
            rest ++ take d.next d.ring,
            a,
            w,
            rw (m, c, e) (sym (append_assoc rest (take d.next d.ring) (i ∷ []))),
            omega (arith, m, length-set d.ring d.next i),
          )
      | no p ↦
          let m : (d.next + 1) % length (set d.ring d.next i) ≡ 0 =
            next_wraps d.next _ (omega (arith, length-set d.ring d.next i)) in
          let (x, y) =
            wrap d.next (set d.ring d.next i) (omega (arith, length-set d.ring d.next i)) in
          let empty : rest ≡ [] = sym c ∙ x in
          let all : set d.ring d.next i ≡ take d.next d.ring ++ i ∷ [] = sym y ∙ e in
          (
            old,
            rest ++ take d.next d.ring,
            a,
            w,
            rw (m, empty) (append-nil (set d.ring d.next i) ∙ all),
            omega (arith, m, length-set d.ring d.next i),
          )
    ]

-- Forgetting the overwritten id leaves the ids of the other slots.
seen_after :
    (seen : List ℕ) (old : ℕ) (rest : List ℕ) (i x : ℕ)
    → i ≢ 0
    → contains seen x ≡ not (x == 0) && contains (old ∷ rest) x
    → (x ≢ 0 → occurrences x (old ∷ rest) ≤ 1)
    → contains (add i (if old == 0 then seen else discard old seen)) x
      ≡ not (x == 0) && contains (rest ++ i ∷ []) x
unfolding contains occurrences
seen_after seen old rest i x h agree once =
    rw
      (
        contains-add i x (if old == 0 then seen else discard old seen),
        contains-append rest (i ∷ []) x,
      )
      (ground (arith, contains-discard old x seen, contains-eq-occurrences x rest))

occurrences_after :
    (old : ℕ) (rest : List ℕ) (i x : ℕ)
    → contains (old ∷ rest) i ≡ false
    → occurrences x (old ∷ rest) ≤ 1
    → occurrences x (rest ++ i ∷ []) ≤ 1
unfolding contains occurrences
occurrences_after old rest i x fresh once =
    ground (arith, occurrences-append x rest (i ∷ []), contains-eq-occurrences i rest)

-- One update of a valid ring is one step of the window, and the ring stays valid.
first_seen-slide :
    (d : Dedupe) (i : ℕ)
    → IsValid d
    → i ≢ 0
    → (d' : Dedupe) × (first_seen d i ≡ some (d', (slide (window d) i).1))
      × (window d' ≡ (slide (window d) i).0)
      × IsValid d'
unfolding first_seen
first_seen-slide d i v h = elim (Bool-cases (contains d.seen i)) [
  | inl old ↦
      let inside : contains (window d) i ≡ true = ground (arith, v.agrees i) in
      (d, rw (old, inside), rw inside, v)
  | inr new ↦
      let outside : contains (window d) i ≡ false = ground (arith, v.agrees i) in
      let (old, rest, slot, w, w', within) = remember-window d i v.in_range in
      (
        remember d i old,
        rw (new, outside, slot),
        rw (outside, w', w),
        record {
          in_range = within;
          agrees = λ x. rw w' (
              seen_after d.seen old rest i x h (rw w at (v.agrees x))
                (λ n. rw w at (v.distinct x n)));
          distinct = λ x n.
              rw w' (occurrences_after old rest i x (rw w at outside) (rw w at (v.distinct x n)));
        },
      )
]

-- A stream of non-zero ids runs as the window does, with no IndexError.
pub run-slides :
    (d : Dedupe) (ids : List ℕ)
    → IsValid d
    → All (λ i. i ≢ 0) ids
    → (d' : Dedupe) × (run d ids ≡ some (d', (slides (window d) ids).1))
      × (window d' ≡ (slides (window d) ids).0)
      × IsValid d'
unfolding run
run-slides d [] v h = (d, refl, refl, v)
run-slides d (i ∷ ids) v h =
    let (d', step, w, v') = first_seen-slide d i v h.0 in
    let (d'', steps, w'', v'') = run-slides d' ids v' h.1 in
    (d'', rw (step, run, ← w, steps), rw (w'', w), v'')

occurrences-zeros : (n x : ℕ) → x ≢ 0 → occurrences x (replicate n 0) ≡ 0
unfolding occurrences
occurrences-zeros zero x h = refl
occurrences-zeros (suc n) x h = ground (arith, occurrences-zeros n x h)

contains-zeros : (n x : ℕ) → not (x == 0) && contains (replicate n 0) x ≡ false
unfolding contains
contains-zeros zero x = ground arith
contains-zeros (suc n) x = ground (arith, contains-zeros n x)

window-init : (n : ℕ) → window (init n) ≡ replicate n 0
unfolding init
window-init n = append-nil (replicate n 0)

pub init-IsValid : (n : ℕ) → 0 < n → IsValid (init n)
unfolding init contains
init-IsValid n h = record {
  in_range = rw length-replicate h;
  agrees = λ x. rw append-nil (sym (contains-zeros n x));
  distinct = λ x k. rw (append-nil, occurrences-zeros n x k) (omega arith);
}
