-- ===== src/Vector/Sets/Intersection.antt =====
-- vector_intersection leaves the items that both vectors have.
use nifty.Base.{
  ℕ, zero, suc, ◌+◌, ◌-◌, ◌≤◌, ◌<◌, ◌≡◌, ◌∙◌, inl, inr, refl, true, false, ◌&&◌, Bool-cases, List,
  ltb, ◌==◌, get_or, set, arith, length, sym, ap,
}
use mathlib.Core.Path.{subst}
use nifty.Vector.{Vector, Sign}
use nifty.Vector.Find.{IsOrder, Sign-cases}
use nifty.Vector.Sets.{meet_loop, vector_intersection}
use nifty.Vector.Sets.Walk.{
  Increasing, IsWalk, skip, drop_item, keep_item, not_found, is_found, passed_both, IsWalk-start,
}
use nifty.Vector.Sets.Merge.{ahead, IsOrdered, IsMerged, ended, empty}

module _ (cmp : ℕ → ℕ → Sign) (o : IsOrder cmp) where
  module _ (a b : List ℕ) (n₁ n₂ : ℕ) (fits : n₁ ≤ length a) (up : Increasing cmp o a n₁)
      (up' : Increasing cmp o b n₂) where
    abbrev Meets : List ℕ → ℕ → ℕ → ℕ → Type 0
    Meets = IsWalk cmp o a b n₁ n₂ fits up up' (λ c. c)

    -- Once all of `b` is passed, nothing that is left of `a` is in both.
    drained :
        (k : ℕ) (vec : List ℕ) (i₁ i : ℕ) → i₁ + k ≡ n₁ → Meets vec i₁ n₂ i → Meets vec n₁ n₂ i
    drained zero vec i₁ i e w = subst (λ c. Meets vec c n₂ i) (omega arith) w
    drained (suc k) vec i₁ i e w = drained k vec (i₁ + 1) i (omega arith) (
        drop_item cmp o a b n₁ n₂ fits up up' (λ c. c) vec i₁ n₂ i w false n₂ (omega arith)
          (omega arith) (λ p j q l m. w.passed p j q (omega arith) m)
          (not_found cmp o a b n₁ n₂ fits up up' (λ c. c) vec i₁ n₂ i w (omega arith)
            (λ j l m. absurd (omega arith)))
          refl)

    meet_loop-Meets :
        (n : ℕ) (vec : List ℕ) (i₁ i₂ i : ℕ)
        → n₁ + n₂ ≤ n + (i₁ + i₂)
        → Meets vec i₁ i₂ i
        → let r = meet_loop cmp n vec n₁ b n₂ i₁ i₂ i in (j : ℕ) × Meets r.0 n₁ j r.1
    unfolding meet_loop
    meet_loop-Meets zero vec i₁ i₂ i fuel w =
        (i₂, subst (λ c. Meets vec c i₂ i) (omega (arith, w.within, w.within')) w)
    meet_loop-Meets (suc n) vec i₁ i₂ i fuel w = elim (Bool-cases (ltb i₁ n₁)) [
      | inr e ↦ rw e (i₂, subst (λ c. Meets vec c i₂ i) (ground (arith, w.within)) w)
      | inl e ↦ elim (Bool-cases (ltb i₂ n₂)) [
        | inr f ↦
            let all : i₂ ≡ n₂ = ground (arith, w.within') in
            let left : i₁ + (n₁ - i₁) ≡ n₁ = omega (arith, w.within) in
            let done = drained (n₁ - i₁) vec i₁ i left (subst (λ c. Meets vec i₁ c i) all w) in
            rw (e, f) (n₂, done)
        | inl f ↦
            let t = get_or vec i₁ 0 in
            let u = get_or b i₂ 0 in
            let new = w.rest i₁ (omega arith) in
            let left : i₁ < n₁ = ground arith in
            let left' : i₂ < n₂ = ground arith in
            elim (Sign-cases (cmp t u)) [
              | inl g ↦
                  let g' = ap (λ c. cmp c u) (sym new) ∙ g in
                  rw (e, f, g)
                    (meet_loop-Meets n vec (i₁ + 1) i₂ i (omega arith) (
                      drop_item cmp o a b n₁ n₂ fits up up' (λ c. c) vec i₁ i₂ i w false i₂ left
                        w.within' (λ p j q l m. w.passed p j q (omega arith) m)
                        (not_found cmp o a b n₁ n₂ fits up up' (λ c. c) vec i₁ i₂ i w left
                          (λ j l m. ahead cmp o b n₂ up' (get_or a i₁ 0) i₂ j g' l m))
                        refl))
              | inr (inl g) ↦
                  let g' = ap (λ c. cmp c u) (sym new) ∙ g in
                  rw (e, f, g)
                    (meet_loop-Meets n (set vec i t) (i₁ + 1) (i₂ + 1) (i + 1) (omega arith) (
                      keep_item cmp o a b n₁ n₂ fits up up' (λ c. c) vec i₁ i₂ i w true (i₂ + 1)
                        left (omega arith)
                        (passed_both cmp o a b n₁ n₂ fits up up' (λ c. c) vec i₁ i₂ i w g')
                        (is_found cmp o a b n₁ n₂ fits up up' (λ c. c) i₁ i₂ left' g') refl))
              | inr (inr g) ↦
                  let g' = ap (λ c. cmp c u) (sym new) ∙ g in
                  rw (e, f, g)
                    (meet_loop-Meets n vec i₁ (i₂ + 1) i (omega arith) (
                      skip cmp o a b n₁ n₂ fits up up' (λ c. c) vec i₁ i₂ i w left'
                        (ground (arith, o.reverse (get_or a i₁ 0) u, g'))))
            ]
      ]
    ]

  -- vector_intersection, of two valid vectors in increasing order, leaves such a vector, which
  -- has an item just if both have it.
  pub vector_intersection_lem :
      (v w : Vector)
      → IsOrdered cmp o v
      → IsOrdered cmp o w
      → IsMerged cmp o v w (λ p q. p && q) (vector_intersection cmp v w)
  unfolding vector_intersection
  vector_intersection_lem v w vv vw =
      let fits : v.len ≤ length v.vec = omega (arith, vv.valid.stored, vv.valid.fits) in
      elim (Bool-cases (v.len == 0)) [
        | inl e ↦
            rw e (record { set = vv; has = λ x. ground (arith, empty cmp o v x (ground arith)) })
        | inr e ↦ elim (Bool-cases (w.len == 0)) [
          | inl f ↦
              rw (e, f)
                (record { set = vw; has = λ x. ground (arith, empty cmp o w x (ground arith)) })
          | inr f ↦
              let up = vv.increasing in
              let up' = vw.increasing in
              let start = IsWalk-start cmp o v.vec w.vec v.len w.len fits up up' (λ c. c) in
              let (j, k) =
                meet_loop-Meets v.vec w.vec v.len w.len fits up up' (v.len + w.len) v.vec 0 0 0
                  (omega arith) start in
              let r = meet_loop cmp (v.len + w.len) v.vec v.len w.vec w.len 0 0 0 in
              rw (e, f) (ended cmp o v w vv vw (λ c. c) r.0 j r.1 fits k)
        ]
      ]
