-- ===== src/Vector/Sets/Difference.antt =====
-- vector_difference leaves the items of the first vector that the second has not.
use nifty.Base.{
  ℕ, zero, suc, ◌+◌, ◌-◌, ◌≤◌, ◌<◌, ◌≡◌, ◌⊎◌, ◌∙◌, inl, inr, refl, true, false, not, ◌&&◌, ◌||◌,
  Bool-cases, List, ltb, ◌==◌, get_or, set, arith, length, sym, ap,
}
use mathlib.Core.Path.{subst}
use nifty.Vector.{Vector, Sign}
use nifty.Vector.Find.{IsOrder, Sign-cases}
use nifty.Vector.Sets.{minus_loop, copy_rest, vector_difference}
use nifty.Vector.Sets.Walk.{
  Increasing, IsWalk, skip, drop_item, keep_item, not_found, is_found, passed_both, IsWalk-start,
}
use nifty.Vector.Sets.Merge.{ahead, IsOrdered, IsMerged, ended, empty}

module _ (cmp : ℕ → ℕ → Sign) (o : IsOrder cmp) where
  module _ (a b : List ℕ) (n₁ n₂ : ℕ) (fits : n₁ ≤ length a) (up : Increasing cmp o a n₁)
      (up' : Increasing cmp o b n₂) where
    abbrev Minus : List ℕ → ℕ → ℕ → ℕ → Type 0
    Minus = IsWalk cmp o a b n₁ n₂ fits up up' not

    -- Where the first loop of vector_difference ends, one of the two is passed.
    record IsApart (r : List ℕ × ℕ × ℕ) : Type 0 where
      place : ℕ
      walk : Minus r.0 r.1 place r.2
      over : (r.1 ≡ n₁) ⊎ (place ≡ n₂)

    minus_loop-IsApart :
        (n : ℕ) (vec : List ℕ) (i₁ i₂ i : ℕ)
        → n₁ + n₂ ≤ n + (i₁ + i₂)
        → Minus vec i₁ i₂ i
        → IsApart (minus_loop cmp n vec n₁ b n₂ i₁ i₂ i)
    unfolding minus_loop
    minus_loop-IsApart zero vec i₁ i₂ i fuel w = record {
      place = i₂;
      walk = w;
      over = inl (omega (arith, w.within, w.within'));
    }
    minus_loop-IsApart (suc n) vec i₁ i₂ i fuel w = elim (Bool-cases (ltb i₁ n₁)) [
      | inr e ↦ rw e (record { place = i₂; walk = w; over = inl (ground (arith, w.within)) })
      | inl e ↦ elim (Bool-cases (ltb i₂ n₂)) [
        | inr f ↦
            rw (e, f) (record { place = i₂; walk = w; over = inr (ground (arith, w.within')) })
        | inl f ↦
            let t = get_or vec i₁ 0 in
            let u = get_or b i₂ 0 in
            let new = w.rest i₁ (omega arith) in
            let left : i₁ < n₁ = ground arith in
            let left' : i₂ < n₂ = ground arith in
            elim (Sign-cases (cmp t u)) [
              | inl g ↦
                  let g' = ap (λ c. cmp c u) (sym new) ∙ g in
                  rw (e, f, g)
                    (minus_loop-IsApart n (set vec i t) (i₁ + 1) i₂ (i + 1) (omega arith) (
                      keep_item cmp o a b n₁ n₂ fits up up' not vec i₁ i₂ i w false i₂ left
                        w.within' (λ p j q l m. w.passed p j q (omega arith) m)
                        (not_found cmp o a b n₁ n₂ fits up up' not vec i₁ i₂ i w left
                          (λ j l m. ahead cmp o b n₂ up' (get_or a i₁ 0) i₂ j g' l m))
                        refl))
              | inr (inl g) ↦
                  let g' = ap (λ c. cmp c u) (sym new) ∙ g in
                  rw (e, f, g)
                    (minus_loop-IsApart n vec (i₁ + 1) (i₂ + 1) i (omega arith) (
                      drop_item cmp o a b n₁ n₂ fits up up' not vec i₁ i₂ i w true (i₂ + 1) left
                        (omega arith) (passed_both cmp o a b n₁ n₂ fits up up' not vec i₁ i₂ i w g')
                        (is_found cmp o a b n₁ n₂ fits up up' not i₁ i₂ left' g') refl))
              | inr (inr g) ↦
                  let g' = ap (λ c. cmp c u) (sym new) ∙ g in
                  rw (e, f, g)
                    (minus_loop-IsApart n vec i₁ (i₂ + 1) i (omega arith) (
                      skip cmp o a b n₁ n₂ fits up up' not vec i₁ i₂ i w left'
                        (ground (arith, o.reverse (get_or a i₁ 0) u, g'))))
            ]
      ]
    ]

    copy_rest-Minus :
        (n : ℕ) (vec : List ℕ) (i₁ i : ℕ)
        → i₁ + n ≡ n₁
        → Minus vec i₁ n₂ i
        → let r = copy_rest cmp n vec i₁ i in Minus r.0 n₁ n₂ r.1
    unfolding copy_rest
    copy_rest-Minus zero vec i₁ i e w = subst (λ c. Minus vec c n₂ i) (omega arith) w
    copy_rest-Minus (suc n) vec i₁ i e w =
        copy_rest-Minus n (set vec i (get_or vec i₁ 0)) (i₁ + 1) (i + 1) (omega arith) (
          keep_item cmp o a b n₁ n₂ fits up up' not vec i₁ n₂ i w false n₂ (omega arith)
            (omega arith) (λ p j q l m. w.passed p j q (omega arith) m)
            (not_found cmp o a b n₁ n₂ fits up up' not vec i₁ n₂ i w (omega arith)
              (λ j l m. absurd (omega arith)))
            refl)

    copied :
        (vec : List ℕ) (i₁ p i : ℕ)
        → Minus vec i₁ p i
        → (i₁ ≡ n₁) ⊎ (p ≡ n₂)
        → let s = copy_rest cmp (n₁ - i₁) vec i₁ i in (j : ℕ) × Minus s.0 n₁ j s.1
    unfolding copy_rest
    copied vec i₁ p i w (inl e) =
        let none_left : n₁ - i₁ ≡ 0 = omega arith in
        rw none_left (p, subst (λ c. Minus vec c p i) e w)
    copied vec i₁ p i w (inr e) =
        let left : i₁ + (n₁ - i₁) ≡ n₁ = omega (arith, w.within) in
        (n₂, copy_rest-Minus (n₁ - i₁) vec i₁ i left (subst (λ c. Minus vec i₁ c i) e w))

    difference-Minus :
        (n : ℕ)
        → n₁ + n₂ ≤ n
        → let r = minus_loop cmp n a n₁ b n₂ 0 0 0 in
          let s = copy_rest cmp (n₁ - r.1) r.0 r.1 r.2 in (j : ℕ) × Minus s.0 n₁ j s.1
    difference-Minus n fuel =
        let start = IsWalk-start cmp o a b n₁ n₂ fits up up' not in
        let k = minus_loop-IsApart n a 0 0 0 (omega arith) start in
        let r = minus_loop cmp n a n₁ b n₂ 0 0 0 in copied r.0 r.1 k.place r.2 k.walk k.over

  -- vector_difference, of two valid vectors in increasing order, leaves such a vector, which has
  -- an item just if the first has it and the second has not.
  pub vector_difference_lem :
      (v w : Vector)
      → IsOrdered cmp o v
      → IsOrdered cmp o w
      → IsMerged cmp o v w (λ p q. p && not q) (vector_difference cmp v w)
  unfolding vector_difference
  vector_difference_lem v w vv vw =
      let fits : v.len ≤ length v.vec = omega (arith, vv.valid.stored, vv.valid.fits) in
      elim (Bool-cases ((v.len == 0) || (w.len == 0))) [
        | inl e ↦
            rw e
              (record { set = vv; has = λ x. ground (arith, empty cmp o v x, empty cmp o w x, e) })
        | inr e ↦
            let up = vv.increasing in
            let up' = vw.increasing in
            let (j, k) =
              difference-Minus v.vec w.vec v.len w.len fits up up' (v.len + w.len) (omega arith) in
            let r = minus_loop cmp (v.len + w.len) v.vec v.len w.vec w.len 0 0 0 in
            let s = copy_rest cmp (v.len - r.1) r.0 r.1 r.2 in
            rw e (ended cmp o v w vv vw not s.0 j s.1 fits k)
      ]
