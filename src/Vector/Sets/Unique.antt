-- ===== src/Vector/Sets/Unique.antt =====
-- vector_unique makes a set of a sorted vector.
use nifty.Base.{
  ℕ, zero, suc, ◌+◌, ◌-◌, ◌≤◌, ◌<◌, ◌≡◌, ◌≢◌, ◌∙◌, inl, inr, refl, Bool-cases, List, ltb, leb, ◌==◌,
  if◌then◌else◌, get_or, set, arith, length, length-set, get_or-set, sym, ap,
}
use mathlib.Core.Path.{subst}
use nifty.Vector.{Vector, Sign, below, same, above, is_same}
use nifty.Vector.Stack.{IsValid}
use nifty.Vector.Find.{IsOrder, IsSorted, Sign-cases, below_upper}
use nifty.Vector.Sets.{unique_loop, vector_unique}
use nifty.Vector.Sets.Walk.{
  contains, contains_some, contains_next, contains_ext, Increasing, same_trans,
}
use nifty.Vector.Sets.Merge.{IsOrdered}

module _ (cmp : ℕ → ℕ → Sign) (o : IsOrder cmp) where
  module _ (v : Vector) (sorted : IsSorted cmp o v 0 v.len) (fits : v.len < length v.vec) where
    -- The first items, up to `i`, are those before `j`, each once.
    record IsUnique (vec : List ℕ) (i j : ℕ) : Type 0 where
      size : length vec ≡ length v.vec
      before : i < j
      within : j ≤ v.len
      rest : (k : ℕ) → j ≤ k → get_or vec k 0 ≡ get_or v.vec k 0
      increasing : Increasing cmp o vec (i + 1)
      top : (k : ℕ) → j ≤ k → k < v.len → cmp (get_or vec i 0) (get_or v.vec k 0) ≢ above
      has : (x : ℕ) → contains cmp vec x (i + 1) ≡ contains cmp v.vec x j

    -- What is above the last item is above the others.
    below_new :
        (vec : List ℕ) (i j t k : ℕ)
        → IsUnique vec i j
        → cmp (get_or vec i 0) t ≡ below
        → k < i + 1
        → cmp (get_or vec k 0) t ≡ below
    below_new vec i j t k w e m = elim (Bool-cases (k == i)) [
      | inl f ↦ ground (arith, e, ap (λ (c : ℕ). get_or vec c 0) {x = k} {y = i})
      | inr f ↦
          below_upper cmp o (get_or vec k 0) (get_or vec i 0) t
            (w.increasing k i (ground arith) (omega arith)) (ground (arith, e))
    ]

    -- The next item is a new one.
    next_new :
        (vec r : List ℕ) (i j : ℕ)
        → IsUnique vec i j
        → j < v.len
        → cmp (get_or vec i 0) (get_or v.vec j 0) ≡ below
        → length r ≡ length vec
        → ((k : ℕ) → get_or r k 0 ≡ (if i + 1 == k then get_or v.vec j 0 else get_or vec k 0))
        → IsUnique r (i + 1) (j + 1)
    next_new vec r i j w l e size at =
        let t = get_or v.vec j 0 in
        let head : get_or r (i + 1) 0 ≡ t = ground (arith, at (i + 1)) in
        record {
          size = size ∙ w.size;
          before = omega (arith, w.before);
          within = omega arith;
          rest = λ k m. ground (arith, at k, w.rest k (omega arith), w.before);
          increasing = λ k m p q. elim (Bool-cases (i + 1 == m)) [
            | inl f ↦ ground (arith, at k, at m, below_new vec i j t k w e (ground arith))
            | inr f ↦ ground (arith, at k, at m, w.increasing k m p (ground arith))
          ];
          top = λ k m p. rw head (sorted j k (omega arith) (omega arith) p);
          has = λ x.
              let old = contains_ext cmp r vec x (i + 1) (λ k m. ground (arith, at k)) in
              rw (contains_next cmp r x (i + 1), head, old, w.has x)
                (sym (contains_next cmp v.vec x j));
        }

    -- The next item is the same as the last one.
    next_old :
        (vec : List ℕ) (i j : ℕ)
        → IsUnique vec i j
        → j < v.len
        → cmp (get_or v.vec j 0) (get_or vec i 0) ≡ same
        → IsUnique vec i (j + 1)
    next_old vec i j w l e = record {
      size = w.size;
      before = omega (arith, w.before);
      within = omega arith;
      rest = λ k m. w.rest k (omega arith);
      increasing = w.increasing;
      top = λ k m p. w.top k (omega arith) p;
      has = λ x. elim (Bool-cases (is_same (cmp x (get_or v.vec j 0)))) [
        | inr f ↦ rw (contains_next cmp v.vec x j, f) (ground (arith, w.has x))
        | inl f ↦
            let s = same_trans cmp o x (get_or v.vec j 0) (get_or vec i 0) (ground (arith, f)) e in
            let c = contains_some cmp vec x (i + 1) i (omega arith) (ground (arith, s)) in
            rw (contains_next cmp v.vec x j, f, c) (ground arith)
      ];
    }

    unique_loop-IsUnique :
        (n : ℕ) (vec : List ℕ) (i j : ℕ)
        → j + n ≡ v.len
        → IsUnique vec i j
        → let r = unique_loop cmp n vec i j in IsUnique r.0 r.1 v.len
    unfolding unique_loop
    unique_loop-IsUnique zero vec i j e w = subst (IsUnique vec i) (omega arith) w
    unique_loop-IsUnique (suc n) vec i j e w =
        let t = get_or vec j 0 in
        let u = get_or vec i 0 in
        let here = w.rest j (omega arith) in
        let under = w.top j (omega arith) (omega arith) in
        let old = λ (g : cmp (get_or v.vec j 0) u ≡ same).
          unique_loop-IsUnique n vec i (j + 1) (omega arith) (next_old vec i j w (omega arith) g) in
        elim (Sign-cases (cmp t u)) [
          | inl g ↦ absurd (ground (arith, under, here, o.reverse u (get_or v.vec j 0), g))
          | inr (inl g) ↦ rw (unique_loop, g) (old (ap (λ c. cmp c u) (sym here) ∙ g))
          | inr (inr g) ↦
              let g' : cmp (get_or v.vec j 0) u ≡ above = ap (λ c. cmp c u) (sym here) ∙ g in
              let up : cmp u (get_or v.vec j 0) ≡ below =
                ground (arith, o.reverse (get_or v.vec j 0) u, g') in
              elim (Bool-cases (ltb (i + 1) j)) [
                | inl f ↦
                    let at = λ (k : ℕ). get_or-set vec (i + 1) k t 0 (omega (arith, w.size, e)) in
                    let r = set vec (i + 1) t in
                    rw (unique_loop, g, f)
                      (unique_loop-IsUnique n r (i + 1) (j + 1) (omega arith) (
                        next_new vec r i j w (omega arith) up (length-set vec (i + 1) t)
                          (λ k. ground (arith, at k, here))))
                | inr f ↦
                    rw (unique_loop, g, f)
                      (unique_loop-IsUnique n vec (i + 1) (j + 1) (omega arith) (
                        next_new vec vec i j w (omega arith) up refl (λ k.
                          ground (
                            arith,
                            here,
                            w.before,
                            ap (λ (c : ℕ). get_or vec c 0) {x = k} {y = j},
                          ))))
              ]
        ]

  -- vector_unique, of a valid and sorted vector, leaves a valid vector in increasing order, which
  -- has just the items that it had before.
  pub vector_unique_lem :
      (v : Vector)
      → IsValid v
      → IsSorted cmp o v 0 v.len
      → let r = vector_unique cmp v in
        IsOrdered cmp o r × ((x : ℕ) → contains cmp r.vec x r.len ≡ contains cmp v.vec x v.len)
  unfolding vector_unique
  vector_unique_lem v w s = elim (Bool-cases (leb v.len 1)) [
    | inl e ↦ rw e (record { valid = w; increasing = λ i j l m. absurd (ground arith) }, λ x. refl)
    | inr e ↦
        let fits : v.len < length v.vec = omega (arith, w.stored, w.fits) in
        let k = unique_loop-IsUnique v s fits (v.len - 1) v.vec 0 1 (ground arith) (record {
          size = refl;
          before = omega arith;
          within = ground arith;
          rest = λ c l. refl;
          increasing = λ c d l m. absurd (omega arith);
          top = λ c l m. s 0 c (omega arith) (omega arith) m;
          has = λ x. refl;
        }) in
        let r = unique_loop cmp (v.len - 1) v.vec 0 1 in
        let at =
          λ (c : ℕ). get_or-set r.0 (r.1 + 1) c 0 0 (omega (arith, k.size, k.before, fits)) in
        rw e (
          record {
            valid = record {
              stored = length-set r.0 (r.1 + 1) 0 ∙ (k.size ∙ w.stored);
              large = w.large;
              fits = omega (arith, k.before, w.fits);
            };
            increasing = λ c d l m. ground (arith, at c, at d, k.increasing c d l m);
          },
          λ x.
              contains_ext cmp (set r.0 (r.1 + 1) 0) r.0 x (r.1 + 1) (λ c l. ground (arith, at c))
              ∙ k.has x,
        )
  ]
