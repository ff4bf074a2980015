-- ===== src/Aggregate/Analytics/Compare/Deltas.antt =====
-- The changes of a period comparison account for the whole change between the periods.
use chic_mcp.Prelude.{
  ◌≡◌, refl, sym, ap, subst, ◌∙◌, true, false, none, some, List, [], ◌∷◌, String, ◌==◌, string_eq,
  Bool-cases, inl, inr, arith,
}
use chic_mcp.Prelude.Int.{ℤ, pos, ◌+ℤ◌, ◌-ℤ◌, sum_ℤ, sum_from, sum_ℤ-cons, int_laws}
use chic_mcp.Prelude.Dict.{Dict, get, Distinct}
use chic_mcp.Prelude.Sets.{contains}
use chic_mcp.Aggregate.Money.{Money}
use chic_mcp.Aggregate.Models.Findings.{Change}
use chic_mcp.Aggregate.Analytics.Compare.{
  get_or_zero, fold_into, fold, mk_change, keys, changes_a, changes_b, changes, total,
}
use chic_mcp.Aggregate.Analytics.Compare.Totals.{
  sum_nil, assoc, zero_left, zero_right, sum_append, total-nil, total-cons, got_same, got_other,
  total-fold_into, fold_into-Distinct,
}

deltas : List Change → ℤ
deltas cs = sum_ℤ (λ c. c.delta) cs

contains-keys : (m : Dict String Money) (k : String) → get m k ≡ none → contains (keys m) k ≡ false
unfolding get contains keys
contains-keys [] k h = refl
contains-keys ((i, w) ∷ m) k h = ground (arith, contains-keys m k)

contains-head :
    (k : String) (ks : List String) (j : String) → k == j ≡ true → contains (k ∷ ks) j ≡ true
unfolding contains
contains-head k ks j h = rw (h, contains) refl

contains-tail :
    (k : String) (ks : List String) (j : String)
    → k == j ≡ false
    → contains (k ∷ ks) j ≡ contains ks j
unfolding contains
contains-tail k ks j h = rw (h, contains) refl

delta_new : (w : Money) → w -ℤ pos 0 ≡ w
delta_new w = omega int_laws

changes_b-skip :
    (seen : List String) (j : String) (w : Money) (mb : Dict String Money)
    → contains seen j ≡ true
    → deltas (changes_b seen ((j, w) ∷ mb)) ≡ deltas (changes_b seen mb)
unfolding changes_b
changes_b-skip seen j w mb h = rw (h, changes_b) refl

changes_b-new :
    (seen : List String) (j : String) (w : Money) (mb : Dict String Money)
    → contains seen j ≡ false
    → deltas (changes_b seen ((j, w) ∷ mb)) ≡ w +ℤ deltas (changes_b seen mb)
unfolding changes_b mk_change deltas
changes_b-new seen j w mb h =
    rw (h, changes_b)
      (sum_ℤ-cons (λ c. c.delta) (mk_change j (pos 0) w) (changes_b seen mb)
        ∙ ap (λ t. t +ℤ sum_ℤ (λ c. c.delta) (changes_b seen mb)) (delta_new w))

-- One more seen key takes its value out of the second loop.
changes_b-seen :
    (k : String) (ks : List String) (mb : Dict String Money)
    → contains ks k ≡ false
    → Distinct mb
    → deltas (changes_b (k ∷ ks) mb) +ℤ get_or_zero mb k ≡ deltas (changes_b ks mb)
unfolding changes_b get_or_zero get
changes_b-seen k ks [] h d = zero_right (deltas [])
changes_b-seen k ks ((j, w) ∷ mb) h d =
    let rest = changes_b-seen k ks mb h d.1 in
    elim (Bool-cases (j == k)) [
      | inl same ↦
          let e : j ≡ k = (string_eq.same_iff j k).0 same in
          let fresh : contains ks j ≡ false = subst (λ i. contains ks i ≡ false) (sym e) h in
          let seen : contains (k ∷ ks) j ≡ true =
            contains-head k ks j ((string_eq.same_iff k j).1 (sym e)) in
          let missing : get_or_zero mb k ≡ pos 0 =
            ap (λ o. elim o as (λ x. Money) [ none ↦ pos 0 | some v ↦ v ])
              (subst (λ i. get mb i ≡ none) e d.0) in
          rw
            (
              changes_b-skip (k ∷ ks) j w mb seen,
              changes_b-new ks j w mb fresh,
              got_same j w mb k same,
            )
            (swapped (deltas (changes_b (k ∷ ks) mb)) w (deltas (changes_b ks mb)) (
              subst (λ z. deltas (changes_b (k ∷ ks) mb) +ℤ z ≡ deltas (changes_b ks mb)) missing
                rest))
      | inr other ↦ elim (Bool-cases (contains ks j)) [
        | inl old ↦
            rw
              (
                changes_b-skip (k ∷ ks) j w mb (contains-tail k ks j (flip other) ∙ old),
                changes_b-skip ks j w mb old,
                got_other j w mb k other,
              )
              rest
        | inr new ↦
            rw
              (
                changes_b-new (k ∷ ks) j w mb (contains-tail k ks j (flip other) ∙ new),
                changes_b-new ks j w mb new,
                got_other j w mb k other,
              )
              (sym (assoc w (deltas (changes_b (k ∷ ks) mb)) (get_or_zero mb k)) ∙ ap (◌+ℤ◌ w) rest)
      ]
    ]
  where
    flip : j == k ≡ false → k == j ≡ false
    flip h = ground (arith, string_eq.same_iff j k, string_eq.same_iff k j)

    swapped : (a b c : ℤ) → a +ℤ pos 0 ≡ c → a +ℤ b ≡ b +ℤ c
    swapped a b c h = rw (sym h) (around a b)
      where
        around : (a b : ℤ) → a +ℤ b ≡ b +ℤ (a +ℤ pos 0)
        around a b = omega int_laws

changes_b-nil : (mb : Dict String Money) → deltas (changes_b [] mb) ≡ total mb
unfolding changes_b total contains mk_change deltas sum_ℤ sum_from
changes_b-nil [] = refl
changes_b-nil ((j, w) ∷ mb) =
    sum_ℤ-cons (λ c. c.delta) (mk_change j (pos 0) w) (changes_b [] mb)
    ∙ rw (delta_new w, changes_b-nil mb) (sym (total-cons j w mb))

-- The values in the second period of the keys of the first.
hits : Dict String Money → Dict String Money → ℤ
hits mb ma = sum_ℤ (λ e. get_or_zero mb (e.0)) ma

changes_a-deltas : (mb ma : Dict String Money) → deltas (changes_a mb ma) +ℤ total ma ≡ hits mb ma
unfolding changes_a mk_change deltas hits total
changes_a-deltas mb [] =
    rw
      (
        sum_nil {A = Change} (λ c. c.delta),
        sum_nil {A = String × Money} (λ e. e.1),
        sum_nil {A = String × Money} (λ e. get_or_zero mb (e.0)),
      )
      (zero_right (pos 0))
changes_a-deltas mb ((k, v) ∷ ma) =
    rw
      (
        sum_ℤ-cons (λ c. c.delta) (mk_change k v (get_or_zero mb k)) (changes_a mb ma),
        sum_ℤ-cons (λ e. e.1) (k, v) ma,
        sum_ℤ-cons (λ e. get_or_zero mb (e.0)) (k, v) ma,
        sym (changes_a-deltas mb ma),
      )
      (cancel (get_or_zero mb k) v (deltas (changes_a mb ma)) (total ma))
  where
    cancel : (g v d t : ℤ) → g -ℤ v +ℤ d +ℤ (v +ℤ t) ≡ g +ℤ (d +ℤ t)
    cancel g v d t = omega int_laws

hits-changes_b :
    (ma mb : Dict String Money)
    → Distinct ma
    → Distinct mb
    → hits mb ma +ℤ deltas (changes_b (keys ma) mb) ≡ total mb
unfolding keys hits
hits-changes_b [] mb da db =
    rw (sum_nil {A = String × Money} (λ e. get_or_zero mb (e.0)), changes_b-nil mb)
      (zero_left (total mb))
hits-changes_b ((k, v) ∷ ma) mb da db =
    let fresh : contains (keys ma) k ≡ false = contains-keys ma k da.0 in
    let seen = changes_b-seen k (keys ma) mb fresh db in
    rw
      (
        sum_ℤ-cons (λ e. get_or_zero mb (e.0)) (k, v) ma,
        sym (hits-changes_b ma mb da.1 db),
        sym seen,
      )
      (shift (get_or_zero mb k) (hits mb ma) (deltas (changes_b (k ∷ keys ma) mb)))
  where
    shift : (g h d : ℤ) → g +ℤ h +ℤ d ≡ h +ℤ (d +ℤ g)
    shift g h d = omega int_laws

-- The keys of the two periods are matched without loss: the changes of all products, those that
-- appeared or disappeared included, add up to the change of the totals.
pub changes-Deltas :
    (a b : List (String × Money))
    → sum_ℤ (λ c. c.delta) (changes (fold a) (fold b)) ≡ sum_ℤ (λ p. p.1) b -ℤ sum_ℤ (λ p. p.1) a
unfolding changes fold deltas
changes-Deltas a b =
    let ma = fold_into [] a in
    let mb = fold_into [] b in
    let first = changes_a-deltas mb ma in
    let second = hits-changes_b ma mb (fold_into-Distinct [] a tt) (fold_into-Distinct [] b tt) in
    sum_append (λ c. c.delta) (changes_a mb ma) (changes_b (keys ma) mb)
    ∙ settle (deltas (changes_a mb ma)) (deltas (changes_b (keys ma) mb)) (total ma) (total mb)
        (rw first second)
    ∙ rw
        (
          total-fold_into [] a,
          total-fold_into [] b,
          total-nil,
          zero_left (sum_ℤ (λ p. p.1) a),
          zero_left (sum_ℤ (λ p. p.1) b),
        )
        refl
  where
    settle : (x y ta tb : ℤ) → x +ℤ ta +ℤ y ≡ tb → x +ℤ y ≡ tb -ℤ ta
    settle x y ta tb h = rw (sym h) (take_out x y ta)
      where
        take_out : (x y ta : ℤ) → x +ℤ y ≡ x +ℤ ta +ℤ y -ℤ ta
        take_out x y ta = omega int_laws
