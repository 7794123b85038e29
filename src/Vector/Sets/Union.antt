-- ===== src/Vector/Sets/Union.antt =====
-- vector_union leaves the items that one of two vectors has, or both.
use nifty.Base.{
  ℕ, zero, suc, ◌+◌, ◌-◌, ◌≤◌, ◌<◌, ◌≡◌, ◌⊎◌, ◌∙◌, inl, inr, refl, false, ◌||◌, Bool-cases, List,
  ◌∷◌, ltb, ◌==◌, get_or, set, arith, length-set, get_or-set, sym, some, cells, length-cells,
}
use mathlib.Core.Path.{subst}
use nifty.Vector.{Vector, Sign, below}
use nifty.Vector.Find.{IsOrder, Sign-cases}
use nifty.Vector.Sets.{join_loop, copy_from, vector_union}
use nifty.Vector.Sets.Walk.{contains, contains_none, contains_ext, Increasing}
use nifty.Vector.Sets.Merge.{IsOrdered, IsMerged, empty}
use nifty.Vector.Sets.Join.{IsJoined, take_first, take_second, take_both}

module _ (cmp : ℕ → ℕ → Sign) (o : IsOrder cmp) where
  module _ (a b : List ℕ) (n₁ n₂ : ℕ) (up : Increasing cmp o a n₁)
      (up' : Increasing cmp o b n₂) where
    -- Where the first loop ends, one of the two is passed.
    record IsEnded (r : List ℕ × ℕ × ℕ × ℕ) : Type 0 where
      joined : IsJoined cmp o a b n₁ n₂ up up' r.0 r.1 r.2 r.3
      over : (r.1 ≡ n₁) ⊎ (r.2 ≡ n₂)

    join_loop-IsEnded :
        (n : ℕ) (vec : List ℕ) (i₁ i₂ i : ℕ)
        → n₁ + n₂ ≤ n + (i₁ + i₂)
        → IsJoined cmp o a b n₁ n₂ up up' vec i₁ i₂ i
        → IsEnded (join_loop cmp n vec a n₁ b n₂ i₁ i₂ i)
    unfolding join_loop
    join_loop-IsEnded zero vec i₁ i₂ i fuel w = record {
      joined = w;
      over = inl (omega (arith, w.within, w.within'));
    }
    join_loop-IsEnded (suc n) vec i₁ i₂ i fuel w = elim (Bool-cases (ltb i₁ n₁)) [
      | inr e ↦ rw e (record { joined = w; over = inl (ground (arith, w.within)) })
      | inl e ↦ elim (Bool-cases (ltb i₂ n₂)) [
        | inr f ↦ rw (e, f) (record { joined = w; over = inr (ground (arith, w.within')) })
        | inl f ↦
            let x = get_or a i₁ 0 in
            let y = get_or b i₂ 0 in
            let left : i₁ < n₁ = ground arith in
            let left' : i₂ < n₂ = ground arith in
            elim (Sign-cases (cmp x y)) [
              | inl g ↦
                  rw (e, f, g)
                    (join_loop-IsEnded n (set vec i x) (i₁ + 1) i₂ (i + 1) (omega arith)
                      (take_first cmp o a b n₁ n₂ up up' vec i₁ i₂ i w left (λ l. g)))
              | inr (inl g) ↦
                  rw (e, f, g)
                    (join_loop-IsEnded n (set vec i x) (i₁ + 1) (i₂ + 1) (i + 1) (omega arith)
                      (take_both cmp o a b n₁ n₂ up up' vec i₁ i₂ i w left left' g))
              | inr (inr g) ↦
                  let g' : cmp y x ≡ below = ground (arith, o.reverse x y, g) in
                  rw (e, f, g)
                    (join_loop-IsEnded n (set vec i y) i₁ (i₂ + 1) (i + 1) (omega arith)
                      (take_second cmp o a b n₁ n₂ up up' vec i₁ i₂ i w left' (λ l. g')))
            ]
      ]
    ]

    copy_first :
        (n : ℕ) (vec : List ℕ) (i₁ i : ℕ)
        → i₁ + n ≡ n₁
        → IsJoined cmp o a b n₁ n₂ up up' vec i₁ n₂ i
        → let r = copy_from cmp n vec a i₁ i in IsJoined cmp o a b n₁ n₂ up up' r.0 n₁ n₂ r.1
    unfolding copy_from
    copy_first zero vec i₁ i e w =
        subst (λ c. IsJoined cmp o a b n₁ n₂ up up' vec c n₂ i) (omega arith) w
    copy_first (suc n) vec i₁ i e w =
        copy_first n (set vec i (get_or a i₁ 0)) (i₁ + 1) (i + 1) (omega arith) (
          take_first cmp o a b n₁ n₂ up up' vec i₁ n₂ i w (omega arith) (λ l. absurd (omega arith)))

    copy_second :
        (n : ℕ) (vec : List ℕ) (i₂ i : ℕ)
        → i₂ + n ≡ n₂
        → IsJoined cmp o a b n₁ n₂ up up' vec n₁ i₂ i
        → let r = copy_from cmp n vec b i₂ i in IsJoined cmp o a b n₁ n₂ up up' r.0 n₁ n₂ r.1
    unfolding copy_from
    copy_second zero vec i₂ i e w =
        subst (λ c. IsJoined cmp o a b n₁ n₂ up up' vec n₁ c i) (omega arith) w
    copy_second (suc n) vec i₂ i e w =
        copy_second n (set vec i (get_or b i₂ 0)) (i₂ + 1) (i + 1) (omega arith) (
          take_second cmp o a b n₁ n₂ up up' vec n₁ i₂ i w (omega arith)
            (λ l. absurd (omega arith)))

    copied_first :
        (vec : List ℕ) (i₁ i₂ i : ℕ)
        → IsJoined cmp o a b n₁ n₂ up up' vec i₁ i₂ i
        → (i₁ ≡ n₁) ⊎ (i₂ ≡ n₂)
        → let r = copy_from cmp (n₁ - i₁) vec a i₁ i in
          IsJoined cmp o a b n₁ n₂ up up' r.0 n₁ i₂ r.1
    unfolding copy_from
    copied_first vec i₁ i₂ i w (inl e) =
        let none_left : n₁ - i₁ ≡ 0 = omega arith in
        rw none_left (subst (λ c. IsJoined cmp o a b n₁ n₂ up up' vec c i₂ i) e w)
    copied_first vec i₁ i₂ i w (inr e) =
        let left : i₁ + (n₁ - i₁) ≡ n₁ = omega (arith, w.within) in
        let r = copy_from cmp (n₁ - i₁) vec a i₁ i in
        subst (λ c. IsJoined cmp o a b n₁ n₂ up up' r.0 n₁ c r.1) (sym e)
          (copy_first (n₁ - i₁) vec i₁ i left
            (subst (λ c. IsJoined cmp o a b n₁ n₂ up up' vec i₁ c i) e w))

    nothing : (vec : List ℕ) (x : ℕ) → contains cmp vec x 0 ≡ false
    nothing vec x = contains_none cmp vec x 0 (λ j l. absurd (omega arith))

    new-IsJoined : (junk : ℕ → ℕ) → IsJoined cmp o a b n₁ n₂ up up' (0 ∷ cells junk (n₁ + n₂)) 0 0 0
    new-IsJoined junk =
        let vec = 0 ∷ cells junk (n₁ + n₂) in
        record {
          size = omega (arith, length-cells junk (n₁ + n₂));
          within = omega arith;
          within' = omega arith;
          behind = omega arith;
          sorted = λ k j l m. absurd (omega arith);
          under = λ k l. absurd (omega arith);
          under' = λ k l. absurd (omega arith);
          has = λ x. ground (arith, nothing vec x, nothing a x, nothing b x);
        }

    union-IsJoined :
        (junk : ℕ → ℕ)
        → let r = join_loop cmp (n₁ + n₂) (0 ∷ cells junk (n₁ + n₂)) a n₁ b n₂ 0 0 0 in
          let s = copy_from cmp (n₁ - r.1) r.0 a r.1 r.3 in
          let t = copy_from cmp (n₂ - r.2) s.0 b r.2 s.1 in
          IsJoined cmp o a b n₁ n₂ up up' t.0 n₁ n₂ t.1
    union-IsJoined junk =
        let vec = 0 ∷ cells junk (n₁ + n₂) in
        let r = join_loop cmp (n₁ + n₂) vec a n₁ b n₂ 0 0 0 in
        let e = join_loop-IsEnded (n₁ + n₂) vec 0 0 0 (omega arith) (new-IsJoined junk) in
        let s = copy_from cmp (n₁ - r.1) r.0 a r.1 r.3 in
        let w = copied_first r.0 r.1 r.2 r.3 e.joined e.over in
        copy_second (n₂ - r.2) s.0 r.2 s.1 (omega (arith, w.within')) w

  -- vector_union, of two valid vectors in increasing order, where there is memory, returns such a
  -- vector, which has an item just if one of the two has it.
  pub vector_union_lem :
      (junk : ℕ → ℕ) (v w : Vector)
      → IsOrdered cmp o v
      → IsOrdered cmp o w
      → (u : Vector) × (vector_union cmp (some junk) v w ≡ some u)
        × IsMerged cmp o v w (λ p q. p || q) u
  unfolding vector_union
  vector_union_lem junk v w vv vw = elim (Bool-cases (v.len == 0)) [
    | inl e ↦ (
      w,
      rw e refl,
      record { set = vw; has = λ x. ground (arith, empty cmp o v x (ground arith)) },
    )
    | inr e ↦ elim (Bool-cases (w.len == 0)) [
      | inl f ↦ (
        v,
        rw (e, f) refl,
        record { set = vv; has = λ x. ground (arith, empty cmp o w x (ground arith)) },
      )
      | inr f ↦
          let n = v.len + w.len in
          let r = join_loop cmp n (0 ∷ cells junk n) v.vec v.len w.vec w.len 0 0 0 in
          let s = copy_from cmp (v.len - r.1) r.0 v.vec r.1 r.3 in
          let t = copy_from cmp (w.len - r.2) s.0 w.vec r.2 s.1 in
          let k = union-IsJoined v.vec w.vec v.len w.len vv.increasing vw.increasing junk in
          let at = λ (c : ℕ). get_or-set t.0 t.1 c 0 0 (omega (arith, k.size, k.behind)) in
          let u : Vector = record { cap = n; len = t.1; vec = set t.0 t.1 0 } in
          (
            u,
            rw (e, f) refl,
            record {
              set = record {
                valid = record {
                  stored = length-set t.0 t.1 0 ∙ k.size;
                  large = ground arith;
                  fits = omega (arith, k.behind);
                };
                increasing = λ p q l m. ground (arith, at p, at q, k.sorted p q l m);
              };
              has = λ x.
                  contains_ext cmp (set t.0 t.1 0) t.0 x t.1 (λ c l. ground (arith, at c))
                  ∙ k.has x;
            },
          )
    ]
  ]
