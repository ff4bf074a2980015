-- ===== src/Moysklad/Dates/Stable.antt =====
-- A normalized moment is stripped, and normalizing it again changes nothing.
use mathlib.Core.List.{append_assoc}
use chic_mcp.Prelude.{
  ℕ, ◌≡◌, refl, subst, ap, ◌∙◌, true, false, [], ◌∷◌, ◌++◌, nat_eq, arith, inl, inr, Bool-cases,
}
use chic_mcp.Prelude.Sets.{contains, contains-append}
use chic_mcp.Prelude.Text.{Text, codes, is_space, strip, strip_left, strip_right, attach}
use chic_mcp.Moysklad.Dates.{stamp, end_stamp, normalize_moment, normalize_moment_end}

-- The text begins with no white space; the empty text does.
abbrev Sharp : Text → Type 0
Sharp [] = Unit
Sharp (c ∷ s) = is_space c ≡ false

strip_left-Sharp : (s : Text) → Sharp (strip_left s)
unfolding strip_left
strip_left-Sharp [] = tt
strip_left-Sharp (c ∷ s) = elim (Bool-cases (is_space c)) [
  | inl h ↦ rw (h, strip_left) (strip_left-Sharp s)
  | inr h ↦ rw (h, strip_left) h
]

strip_left_of_Sharp : (s : Text) → Sharp s → strip_left s ≡ s
unfolding strip_left
strip_left_of_Sharp [] h = refl
strip_left_of_Sharp (c ∷ s) h = rw h

attach-Sharp : (c : ℕ) (r : Text) → is_space c ≡ false → Sharp (attach c r)
unfolding attach
attach-Sharp c [] h = rw h h
attach-Sharp c (d ∷ r) h = h

strip_right-Sharp : (s : Text) → Sharp s → Sharp (strip_right s)
unfolding strip_right
strip_right-Sharp [] h = tt
strip_right-Sharp (c ∷ s) h = attach-Sharp c (strip_right s) h

strip_right-attach : (c : ℕ) (r : Text) → strip_right r ≡ r → strip_right (attach c r) ≡ attach c r
unfolding strip_right
strip_right-attach c [] h = ground arith
strip_right-attach c (d ∷ r) h = rw (h, attach)

strip_right_idem : (s : Text) → strip_right (strip_right s) ≡ strip_right s
unfolding strip_right
strip_right_idem [] = refl
strip_right_idem (c ∷ s) = strip_right-attach c (strip_right s) (strip_right_idem s)

attach-append : (d c : ℕ) (s : Text) → attach d (s ++ c ∷ []) ≡ d ∷ (s ++ c ∷ [])
unfolding attach
attach-append d c [] = refl
attach-append d c (e ∷ s) = refl

strip_right-append_sharp :
    (s : Text) (c : ℕ) → is_space c ≡ false → strip_right (s ++ c ∷ []) ≡ s ++ c ∷ []
unfolding strip_right
strip_right-append_sharp [] c h = rw h
strip_right-append_sharp (d ∷ s) c h =
    ap (attach d) (strip_right-append_sharp s c h) ∙ attach-append d c s

strip-Sharp : (s : Text) → Sharp (strip s)
unfolding strip
strip-Sharp s = strip_right-Sharp (strip_left s) (strip_left-Sharp s)

pub strip_idem : (s : Text) → strip (strip s) ≡ strip s
unfolding strip
strip_idem s =
    rw (strip_left_of_Sharp (strip_right (strip_left s)) (strip-Sharp s))
      (strip_right_idem (strip_left s))

-- A stripped text with a time behind it is stripped.
strip-append_time :
    (c : ℕ) (s time : Text) (z : ℕ)
    → Sharp (c ∷ s)
    → is_space z ≡ false
    → strip ((c ∷ s) ++ (time ++ z ∷ [])) ≡ (c ∷ s) ++ (time ++ z ∷ [])
unfolding strip
strip-append_time c s time z h hz = rw (strip_left_of_Sharp ((c ∷ s) ++ (time ++ z ∷ [])) h) (
    subst (λ u. strip_right u ≡ u) (append_assoc (c ∷ s) time (z ∷ []))
      (strip_right-append_sharp ((c ∷ s) ++ time) z hz))

-- The stamp of a stripped text without a T is stable.
stamp_stable :
    (t time : Text) (z : ℕ)
    → Sharp t
    → strip t ≡ t
    → is_space z ≡ false
    → contains t b'T' ≡ false
    → contains (time ++ z ∷ []) 32 ≡ true
    → (u : Text) × (stamp (time ++ z ∷ []) t ≡ u)
      × (strip u ≡ u)
      × ((other : Text) → stamp other u ≡ u)
unfolding stamp
stamp_stable [] time z sharp stripped hz no_t has_space = ([], refl, stripped, λ other. refl)
stamp_stable (c ∷ s) time z sharp stripped hz no_t has_space =
    elim (Bool-cases (contains (c ∷ s) 32)) [
      | inl h ↦ (c ∷ s, rw h, stripped, λ other. rw h)
      | inr h ↦ (
        (c ∷ s) ++ (time ++ z ∷ []),
        rw (h, no_t),
        strip-append_time c s time z sharp hz,
        λ other. rw (has_in) refl,
      )
    ]
  where
    has_in : contains ((c ∷ s) ++ (time ++ z ∷ [])) 32 ≡ true
    has_in = rw (contains-append (c ∷ s) (time ++ z ∷ []) 32, has_space) (ground arith)

end_stamp-eq-stamp :
    (t : Text) → strip t ≡ t → contains t b'T' ≡ false → end_stamp t ≡ stamp (codes " 23:59:59") t
unfolding end_stamp normalize_moment stamp
end_stamp-eq-stamp [] stripped no_t = refl
end_stamp-eq-stamp (c ∷ s) stripped no_t = elim (Bool-cases (contains (c ∷ s) 32)) [
  | inl h ↦ rw (h, stripped, stamp, h)
  | inr h ↦ rw (h, no_t)
]

-- For a moment without a T, normalizing is idempotent, also the end of a range, and the one leaves
-- the other's result as it is.
pub normalize_moment_idem :
    (s : Text)
    → contains (strip s) b'T' ≡ false
    → (normalize_moment (normalize_moment s) ≡ normalize_moment s)
      × (normalize_moment (normalize_moment_end s) ≡ normalize_moment_end s)
unfolding normalize_moment normalize_moment_end
normalize_moment_idem s no_t =
    let t = strip s in
    let (u, e, su, stable) =
      stamp_stable t (codes " 00:00:0") b'0' (strip-Sharp s) (strip_idem s) refl no_t
        (unfold contains in refl) in
    let (u', e', su', stable') =
      stamp_stable t (codes " 23:59:5") b'9' (strip-Sharp s) (strip_idem s) refl no_t
        (unfold contains in refl) in
    (
      rw (e, su) (stable (codes " 00:00:00")),
      rw (end_stamp-eq-stamp t (strip_idem s) no_t, e', su') (stable' (codes " 00:00:00")),
    )
