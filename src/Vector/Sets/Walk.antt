-- ===== src/Vector/Sets/Walk.antt =====
-- The walk along two sets that vector_intersection and vector_difference share: the items of the
-- first that are kept are written over its start.
use nifty.Base.{
  ℕ, zero, suc, ◌+◌, ◌≤◌, ◌<◌, ◌≡◌, ◌≢◌, ◌∙◌, inl, inr, refl, Bool, true, false, ◌&&◌, ◌||◌,
  Bool-cases, List, ltb, ◌==◌, get_or, set, arith, length, length-set, get_or-set, ap,
}
use nifty.Vector.{Sign, below, same, above, is_same}
use nifty.Vector.Find.{IsOrder, Sign-cases, above_lower, below_upper}

module _ (cmp : ℕ → ℕ → Sign) where
  -- Whether one of the first `n` items is the same as `x`.
  pub contains : List ℕ → ℕ → ℕ → Bool
  contains vec x zero = false
  contains vec x (suc n) = contains vec x n || is_same (cmp x (get_or vec n 0))

  pub contains_next :
      (vec : List ℕ) (x n : ℕ)
      → contains vec x (n + 1) ≡ (contains vec x n || is_same (cmp x (get_or vec n 0)))
  unfolding contains
  contains_next vec x n = let e : n + 1 ≡ suc n = omega arith in rw e refl

  pub contains_ext :
      (a b : List ℕ) (x n : ℕ)
      → ((j : ℕ) → j < n → get_or a j 0 ≡ get_or b j 0)
      → contains a x n ≡ contains b x n
  unfolding contains
  contains_ext a b x zero e = refl
  contains_ext a b x (suc n) e =
      ground (arith, contains_ext a b x n (λ j l. e j (omega arith)), e n)

  pub contains_none :
      (b : List ℕ) (x n : ℕ)
      → ((j : ℕ) → j < n → is_same (cmp x (get_or b j 0)) ≡ false)
      → contains b x n ≡ false
  unfolding contains
  contains_none b x zero e = refl
  contains_none b x (suc n) e = ground (arith, contains_none b x n (λ j l. e j (omega arith)), e n)

  pub contains_some :
      (b : List ℕ) (x n j : ℕ)
      → j < n
      → is_same (cmp x (get_or b j 0)) ≡ true
      → contains b x n ≡ true
  unfolding contains
  contains_some b x zero j l e = absurd (omega arith)
  contains_some b x (suc n) j l e = elim (Bool-cases (j == n)) [
    | inl f ↦ ground (arith, ap (λ (c : ℕ). get_or b c 0) {x = j} {y = n})
    | inr f ↦ ground (arith, contains_some b x n j (ground arith))
  ]

module _ (cmp : ℕ → ℕ → Sign) (o : IsOrder cmp) where
  pub lower_below : (x a b : ℕ) → cmp x a ≢ above → cmp a b ≡ below → cmp x b ≡ below
  lower_below x a b e f =
      let g : cmp b a ≡ above = ground (arith, o.reverse a b, f) in
      ground (arith, o.reverse b x, above_lower cmp o b a x g e)

  pub same_trans : (x a b : ℕ) → cmp x a ≡ same → cmp a b ≡ same → cmp x b ≡ same
  same_trans x a b e f =
      let p = o.trans x a b (ground (arith, e)) (ground (arith, f)) in
      let q = o.trans b a x (ground (arith, o.reverse a b, f)) (ground (arith, o.reverse x a, e)) in
      elim (Sign-cases (cmp x b)) [
        | inl g ↦ absurd (q (ground (arith, o.reverse x b, g)))
        | inr (inl g) ↦ g
        | inr (inr g) ↦ absurd (p g)
      ]

  -- The first `n` items are in order, without duplicates.
  abbrev pub Increasing : List ℕ → ℕ → Type 0
  Increasing vec n = (i j : ℕ) → i < j → j < n → cmp (get_or vec i 0) (get_or vec j 0) ≡ below

  module _ (a b : List ℕ) (n₁ n₂ : ℕ) (fits : n₁ ≤ length a) (up : Increasing a n₁)
      (up' : Increasing b n₂) (keep : Bool → Bool) where
    -- What is below an item of `a` is below those behind it.
    below_rest :
        (x i j : ℕ) → cmp x (get_or a i 0) ≡ below → i ≤ j → j < n₁ → cmp x (get_or a j 0) ≡ below
    below_rest x i j e le lt = elim (Bool-cases (i == j)) [
      | inl f ↦ ground (arith, e, ap (λ (c : ℕ). get_or a c 0) {x = i} {y = j})
      | inr f ↦
          below_upper cmp o x (get_or a i 0) (get_or a j 0) e
            (ground (arith, up i j (ground arith) lt))
    ]

    -- Of the items of `a` before `i₁` those are written out that are to be kept, by whether `b`
    -- has them; the items of `b` before `i₂` are below those of `a` that are left.
    pub record IsWalk (vec : List ℕ) (i₁ i₂ i : ℕ) : Type 0 where
      pub size : length vec ≡ length a
      pub within : i₁ ≤ n₁
      pub within' : i₂ ≤ n₂
      pub behind : i ≤ i₁
      pub rest : (j : ℕ) → i₁ ≤ j → get_or vec j 0 ≡ get_or a j 0
      pub passed : (k j : ℕ) → k < i₂ → i₁ ≤ j → j < n₁ → cmp (get_or b k 0) (get_or a j 0) ≡ below
      pub sorted : Increasing vec i
      pub under : (k j : ℕ) → k < i → i₁ ≤ j → j < n₁ → cmp (get_or vec k 0) (get_or a j 0) ≡ below
      pub has : (x : ℕ) → contains cmp vec x i ≡ (contains cmp a x i₁ && keep (contains cmp b x n₂))

    module _ (vec : List ℕ) (i₁ i₂ i : ℕ) (w : IsWalk vec i₁ i₂ i) where
      -- The next item of `b` is below what is left of `a`.
      pub skip : i₂ < n₂ → cmp (get_or b i₂ 0) (get_or a i₁ 0) ≡ below → IsWalk vec i₁ (i₂ + 1) i
      skip l e = record {
        size = w.size;
        within = w.within;
        within' = omega arith;
        behind = w.behind;
        rest = w.rest;
        passed = λ k j p q r. elim (Bool-cases (k == i₂)) [
          | inl f ↦ ground (
            arith,
            below_rest (get_or b i₂ 0) i₁ j e q r,
            ap (λ (c : ℕ). get_or b c 0) {x = k} {y = i₂},
          )
          | inr f ↦ w.passed k j (ground arith) q r
        ];
        sorted = w.sorted;
        under = w.under;
        has = w.has;
      }

      module _ (c : Bool) (i₂' : ℕ) (left : i₁ < n₁) (within' : i₂' ≤ n₂)
          (passed : (k j : ℕ)
            → k < i₂'
            → i₁ + 1 ≤ j
            → j < n₁
            → cmp (get_or b k 0) (get_or a j 0) ≡ below)
          (found : (x : ℕ) → is_same (cmp x (get_or a i₁ 0)) ≡ true → contains cmp b x n₂ ≡ c) where
        -- The next item of `a` is not to be kept.
        pub drop_item : keep c ≡ false → IsWalk vec (i₁ + 1) i₂' i
        drop_item out = record {
          size = w.size;
          within = omega arith;
          within' = within';
          behind = omega (arith, w.behind);
          rest = λ j l. w.rest j (omega arith);
          passed = passed;
          sorted = w.sorted;
          under = λ k j l m n. w.under k j l (omega arith) n;
          has = λ x. elim (Bool-cases (is_same (cmp x (get_or a i₁ 0)))) [
            | inl e ↦
                rw (contains_next cmp a x i₁, e, found x e, out)
                  (ground (arith, w.has x, found x e, out, ap keep (found x e)))
            | inr e ↦ rw (contains_next cmp a x i₁, e) (ground (arith, w.has x))
          ];
        }

        -- The next item of `a` is to be kept.
        pub keep_item : keep c ≡ true → IsWalk (set vec i (get_or vec i₁ 0)) (i₁ + 1) i₂' (i + 1)
        keep_item in' =
            let t = get_or vec i₁ 0 in
            let new : t ≡ get_or a i₁ 0 = w.rest i₁ (omega arith) in
            let room : i < length vec = omega (arith, w.size, w.behind, fits) in
            let at = λ (k : ℕ). get_or-set vec i k t 0 room in
            record {
              size = length-set vec i t ∙ w.size;
              within = omega arith;
              within' = within';
              behind = omega (arith, w.behind);
              rest = λ j l. ground (arith, at j, w.behind, w.rest j (omega arith));
              passed = passed;
              sorted = λ k j l m. ground (arith, at k, at j, w.sorted k j l, new, w.under k i₁);
              under = λ k j l m n. ground (arith, at k, new, up i₁ j (omega arith) n, w.under k j);
              has = λ x.
                  let old = contains_ext cmp (set vec i t) vec x i (λ j l. ground (arith, at j)) in
                  let head : get_or (set vec i t) i 0 ≡ get_or a i₁ 0 = ground (arith, at i, new) in
                  elim (Bool-cases (is_same (cmp x (get_or a i₁ 0)))) [
                    | inl e ↦
                        rw
                          (
                            contains_next cmp (set vec i t) x i,
                            head,
                            contains_next cmp a x i₁,
                            e,
                            found x e,
                            in',
                          )
                          (ground arith)
                    | inr e ↦
                        rw
                          (
                            contains_next cmp (set vec i t) x i,
                            head,
                            contains_next cmp a x i₁,
                            e,
                            old,
                          )
                          (ground (arith, w.has x))
                  ];
            }

      -- The next item of `a` is below those of `b` that are left: it is not one of them.
      pub not_found :
          i₁ < n₁
          → ((j : ℕ) → i₂ ≤ j → j < n₂ → cmp (get_or a i₁ 0) (get_or b j 0) ≡ below)
          → (x : ℕ) → is_same (cmp x (get_or a i₁ 0)) ≡ true
          → contains cmp b x n₂ ≡ false
      not_found l ahead x e =
          let t = get_or a i₁ 0 in
          let eq : cmp x t ≡ same = ground (arith, e) in
          contains_none cmp b x n₂ (λ j m. elim (Bool-cases (ltb j i₂)) [
            | inl f ↦
                let g =
                  below_upper cmp o (get_or b j 0) t x
                    (w.passed j i₁ (ground arith) (omega arith) l)
                    (ground (arith, o.reverse x t, eq)) in
                ground (arith, o.reverse (get_or b j 0) x, g)
            | inr f ↦
                let g =
                  lower_below x t (get_or b j 0) (ground (arith, eq)) (ahead j (ground arith) m) in
                ground (arith, g)
          ])

    -- The item of `a` is the same as one of `b`.
    pub is_found :
        (i₁ i₂ : ℕ)
        → i₂ < n₂
        → cmp (get_or a i₁ 0) (get_or b i₂ 0) ≡ same
        → (x : ℕ) → is_same (cmp x (get_or a i₁ 0)) ≡ true
        → contains cmp b x n₂ ≡ true
    is_found i₁ i₂ l eq x e =
        let s = same_trans x (get_or a i₁ 0) (get_or b i₂ 0) (ground (arith, e)) eq in
        contains_some cmp b x n₂ i₂ l (ground (arith, s))

    -- What is passed once the next items of both are the same.
    pub passed_both :
        (vec : List ℕ) (i₁ i₂ i : ℕ)
        → IsWalk vec i₁ i₂ i
        → cmp (get_or a i₁ 0) (get_or b i₂ 0) ≡ same
        → (k j : ℕ) → k < i₂ + 1
        → i₁ + 1 ≤ j
        → j < n₁
        → cmp (get_or b k 0) (get_or a j 0) ≡ below
    passed_both vec i₁ i₂ i w eq k j p q r = elim (Bool-cases (k == i₂)) [
      | inr f ↦ w.passed k j (ground arith) (omega arith) r
      | inl f ↦
          let g =
            lower_below (get_or b i₂ 0) (get_or a i₁ 0) (get_or a j 0)
              (ground (arith, o.reverse (get_or a i₁ 0) (get_or b i₂ 0), eq))
              (up i₁ j (omega arith) r) in
          ground (arith, g, ap (λ (c : ℕ). get_or b c 0) {x = k} {y = i₂})
    ]

    pub IsWalk-start : IsWalk a 0 0 0
    unfolding contains
    IsWalk-start = record {
      size = refl;
      within = omega arith;
      within' = omega arith;
      behind = omega arith;
      rest = λ j l. refl;
      passed = λ k j p. absurd (omega arith);
      sorted = λ k j p q. absurd (omega arith);
      under = λ k j p. absurd (omega arith);
      has = λ x. refl;
    }
