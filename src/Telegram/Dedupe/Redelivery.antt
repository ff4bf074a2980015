-- ===== src/Telegram/Dedupe/Redelivery.antt =====
-- A repeated update within the window is dropped.
use chic_mcp.Prelude.{
  ℕ, suc, ◌+◌, ◌≤◌, ◌<◌, ◌≡◌, ◌≢◌, Bool, true, false, some, List, [], ◌∷◌, ◌++◌, length, take, drop,
  nat_eq, arith, length-append, length-drop, length-take, Bool-cases, inl, inr, All,
}
use mathlib.Core.List.{append_assoc}
use chic_mcp.Prelude.Sets.{contains, contains-append}
use chic_mcp.Telegram.Dedupe.{Dedupe, first_seen, run}
use chic_mcp.Telegram.Dedupe.Window.{window, tail, slide, slides, IsValid, run-slides}

-- The window keeps its size, and an id in it stays until as many newer ones have come in.
length-slide : (w : List ℕ) (i : ℕ) → 0 < length w → length (slide w i).0 ≡ length w
length-slide [] i h = absurd (omega arith)
length-slide (x ∷ w) i h = ground (arith, length-append w (i ∷ []))

-- `i` stands in the window with at most k newer slots after it.
abbrev InLast : ℕ → ℕ → List ℕ → Type 0
InLast i k w = (a b : List ℕ) × (w ≡ a ++ i ∷ b) × (length b ≤ k)

shift-InLast :
    (i k j : ℕ) (a b : List ℕ)
    → suc k < length (a ++ i ∷ b)
    → length b ≤ k
    → InLast i (suc k) (tail (a ++ i ∷ b) ++ j ∷ [])
shift-InLast i k j [] b h l = absurd (omega arith)
shift-InLast i k j (y ∷ a) b h l =
    (a, b ++ j ∷ [], append_assoc a (i ∷ b) (j ∷ []), omega (arith, length-append b (j ∷ [])))

slide-InLast :
    (i k j : ℕ) (w : List ℕ) → suc k < length w → InLast i k w → InLast i (suc k) (slide w j).0
slide-InLast i k j w h (a, b, e, l) = elim (Bool-cases (contains w j)) [
  | inl old ↦ (a, b, rw old e, omega arith)
  | inr new ↦ rw new (rw e (shift-InLast i k j a b (rw e at h) l))
]

slides-InLast :
    (i k : ℕ) (ids w : List ℕ)
    → length ids + k < length w
    → InLast i k w
    → InLast i (length ids + k) (slides w ids).0
slides-InLast i k [] w h (a, b, e, l) = (a, b, e, omega arith)
slides-InLast i k (j ∷ ids) w h r =
    let s =
      slides-InLast i (suc k) ids (slide w j).0 (omega (arith, length-slide w j (omega arith)))
        (slide-InLast i k j w (omega arith) r) in
    (s.0, s.1, s.2, omega (arith, s.3))

contains_of_InLast : (i k : ℕ) (w : List ℕ) → InLast i k w → contains w i ≡ true
unfolding contains
contains_of_InLast i k w (a, b, e, l) = rw (e, contains-append a (i ∷ b) i) (ground arith)

slide_new-InLast : (i : ℕ) (w : List ℕ) → contains w i ≡ false → InLast i 0 (slide w i).0
slide_new-InLast i w new = (tail w, [], rw new, omega arith)

length-window : (d : Dedupe) → IsValid d → length (window d) ≡ length d.ring
length-window d v = omega (
  arith,
  length-append (drop d.next d.ring) (take d.next d.ring),
  length-drop d.next d.ring,
  length-take d.next d.ring,
  v.in_range,
)

-- An id that was let through is dropped when it comes again, as long as fewer ids than the ring
-- has slots came in between.
pub redelivery_dropped :
    (d : Dedupe) (i : ℕ) (ids : List ℕ)
    → IsValid d
    → i ≢ 0
    → All (λ j. j ≢ 0) ids
    → contains d.seen i ≡ false
    → length ids < length d.ring
    → (d' : Dedupe) × (fresh : List Bool) × (run d (i ∷ ids) ≡ some (d', true ∷ fresh))
      × (first_seen d' i ≡ some (d', false))
unfolding first_seen
redelivery_dropped d i ids v h hs new short =
    let (d', steps, w, v') = run-slides d (i ∷ ids) v (h, hs) in
    let outside : contains (window d) i ≡ false = ground (arith, v.agrees i) in
    let inside : contains (window d') i ≡ true = rw w (
      contains_of_InLast i (length ids + 0) _ (
        slides-InLast i 0 ids (slide (window d) i).0
          (omega (arith, length-slide (window d) i, length-window d v))
          (slide_new-InLast i (window d) outside))) in
    let known : contains d'.seen i ≡ true = rw (v'.agrees i) (ground arith) in
    (d', (slides (tail (window d) ++ i ∷ []) ids).1, rw outside at steps, rw known)
