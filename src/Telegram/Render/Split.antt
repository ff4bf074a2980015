-- ===== src/Telegram/Render/Split.antt =====
-- The split of a source text keeps its characters but for newlines, in pieces of a bounded length.
use mathlib.Core.List.{append-nil}
use chic_mcp.Prelude.{
  ℕ, zero, suc, ◌+◌, ◌≤◌, ◌<◌, ◌≡◌, refl, sym, ap, ◌∙◌, false, not, Option, none, some, List, [],
  ◌∷◌, ◌++◌, ◌&&◌, All, filter, take, drop, length, length-take, length-drop, take-append-drop, ltb,
  leb, ◌==◌, nat_eq, if◌then◌else◌, Bool-cases, inl, inr, arith, leb→le,
}
use chic_mcp.Prelude.Text.{Text}
use chic_mcp.Telegram.Render.{
  split_target, newline, last_newline, cut_of, attach_newline, strip_newlines, last_chunk, next_cut,
  chunks, source_chunks,
}

-- The characters of a text that are no newlines, and those of several texts
abbrev pub inked : Text → Text
inked s = filter (λ c. not (c == newline)) s

abbrev pub inked_all : List Text → Text
inked_all [] = []
inked_all (s ∷ ss) = inked s ++ inked_all ss

inked-append : (s t : Text) → inked (s ++ t) ≡ inked s ++ inked t
inked-append [] t = refl
inked-append (c ∷ s) t = ground (arith, inked-append s t)

attach_newline-lem :
    (c : ℕ) (s : Text)
    → (inked (attach_newline c s) ≡ inked (c ∷ s)) × (length (attach_newline c s) ≤ suc (length s))
unfolding attach_newline
attach_newline-lem c [] = (ground arith, ground arith)
attach_newline-lem c (d ∷ s) = (refl, omega arith)

strip_newlines-inked : (s : Text) → inked (strip_newlines s) ≡ inked s
unfolding strip_newlines
strip_newlines-inked [] = refl
strip_newlines-inked (c ∷ s) =
    (attach_newline-lem c (strip_newlines s)).0 ∙ ground (arith, strip_newlines-inked s)

strip_newlines-le : (s : Text) → length (strip_newlines s) ≤ length s
unfolding strip_newlines
strip_newlines-le [] = omega arith
strip_newlines-le (c ∷ s) =
    omega (arith, (attach_newline-lem c (strip_newlines s)).1, strip_newlines-le s)

not_ltb : (a b : ℕ) → ltb a b ≡ false → b ≤ a
not_ltb a b h = ground arith

abbrev Below : ℕ → Option ℕ → Type 0
Below n none = Unit
Below n (some i) = i < n

Below-le : (m n : ℕ) (o : Option ℕ) → m ≤ n → Below m o → Below n o
Below-le m n none h b = tt
Below-le m n (some i) h b = omega arith

last_newline-Below : (lo i : ℕ) (s : Text) → Below (i + length s) (last_newline lo i s)
unfolding last_newline
last_newline-Below lo i [] = tt
last_newline-Below lo i (c ∷ s) = here (last_newline lo (suc i) s) (
    Below-le (suc i + length s) (i + suc (length s)) (last_newline lo (suc i) s) (omega arith)
      (last_newline-Below lo (suc i) s))
  where
    here :
        (o : Option ℕ)
        → Below (i + suc (length s)) o
        → Below (i + suc (length s)) (elim o as (λ x. Option ℕ) [
          | some n ↦ some n
          | none ↦ if c == newline && leb lo i then some i else none
        ])
    here (some n) b = b
    here none b = elim (Bool-cases (c == newline && leb lo i)) [
      | inl found ↦ rw found (omega arith)
      | inr missing ↦ rw missing tt
    ]

cut_of_bounds : (o : Option ℕ) → Below split_target o → (0 < cut_of o) × (cut_of o ≤ split_target)
unfolding cut_of
cut_of_bounds none b = omega arith
cut_of_bounds (some n) b = omega arith

next_cut_bounds : (rest : Text) → (0 < next_cut rest) × (next_cut rest ≤ split_target)
unfolding next_cut
next_cut_bounds rest = cut_of_bounds (last_newline 1750 0 (take split_target rest)) (
    Below-le (0 + length (take split_target rest)) split_target
      (last_newline 1750 0 (take split_target rest)) (omega (arith, length-take split_target rest))
      (last_newline-Below 1750 0 (take split_target rest)))

abbrev pub IsSplit : List Text → Text → Type 0
IsSplit ss s = All (λ t. length t ≤ split_target) ss × (inked_all ss ≡ inked s)

last_chunk-IsSplit : (s : Text) → length s ≤ split_target → IsSplit (last_chunk s) s
unfolding last_chunk
last_chunk-IsSplit [] h = (tt, refl)
last_chunk-IsSplit (c ∷ s) h = ((h, tt), append-nil (inked (c ∷ s)))

chunks-IsSplit : (fuel : ℕ) (s : Text) → length s ≤ fuel → IsSplit (chunks fuel s) s
unfolding chunks
chunks-IsSplit zero [] h = (tt, refl)
chunks-IsSplit zero (c ∷ s) h = absurd (omega arith)
chunks-IsSplit (suc fuel) s h = elim (Bool-cases (ltb split_target (length s))) [
  | inl long ↦
      let n = next_cut s in
      let b = next_cut_bounds s in
      let rest = chunks-IsSplit fuel (drop n s) (omega (arith, h, b.0, length-drop n s)) in
      rw (long, chunks)
        (
          (omega (arith, b.1, strip_newlines-le (take n s), length-take n s), rest.0),
          ap (λ t. t ++ inked_all (chunks fuel (drop n s))) (strip_newlines-inked (take n s))
              ∙ ap (λ t. inked (take n s) ++ t) rest.1
              ∙ sym (inked-append (take n s) (drop n s))
              ∙ ap inked (take-append-drop n s),
        )
  | inr short ↦
      let last =
        last_chunk-IsSplit (strip_newlines s)
          (omega (arith, strip_newlines-le s, not_ltb split_target (length s) short)) in
      rw (short, chunks) (last.0, last.1 ∙ strip_newlines-inked s)
]

-- The pieces that an answer of any length is cut into have at most 3500 characters each, before
-- their conversion, and hold its characters in order: only newlines may be left out.
pub source_chunks-IsSplit : (text : Text) → IsSplit (source_chunks text) text
unfolding source_chunks
source_chunks-IsSplit text = elim (Bool-cases (leb (length text) split_target)) [
  | inl short ↦
      rw (short, source_chunks)
        ((leb→le (length text) split_target short, tt), append-nil (inked text))
  | inr long ↦ rw (long, source_chunks) (chunks-IsSplit (length text) text (omega arith))
]
