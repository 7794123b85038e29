-- ===== src/Vector/Find.antt =====
-- vector_find, the binary search of a sorted vector.
use nifty.Base.{
  ℕ, zero, suc, ◌+◌, ◌-◌, ◌/◌, ◌≤◌, ◌<◌, ◌≡◌, ◌≢◌, ◌⊎◌, inl, inr, refl, Bool-cases, ltb, ltb→lt,
  arith, ap, ◌∙◌,
}
use mathlib.Core.Path.{subst}
use nifty.Vector.{Vector, at, Sign, below, same, above, find_loop, vector_find}

abbrev opposite : Sign → Sign
opposite below = above
opposite same = same
opposite above = below

pub Sign-cases : (s : Sign) → (s ≡ below) ⊎ (s ≡ same) ⊎ (s ≡ above)
Sign-cases below = inl refl
Sign-cases same = inr (inl refl)
Sign-cases above = inr (inr refl)

-- What a comparator has to be: it orders the items.
pub record IsOrder (cmp : ℕ → ℕ → Sign) : Type 0 where
  pub reverse : (a b : ℕ) → cmp b a ≡ opposite (cmp a b)
  pub trans : (a b c : ℕ) → cmp a b ≢ above → cmp b c ≢ above → cmp a c ≢ above

module _ (cmp : ℕ → ℕ → Sign) (o : IsOrder cmp) where
  -- An item above one of two is above a lower one.
  pub above_lower : (a b c : ℕ) → cmp a b ≡ above → cmp c b ≢ above → cmp a c ≡ above
  above_lower a b c e l = elim (Sign-cases (cmp a c)) [
    | inl f ↦ absurd (o.trans a c b (ground (arith, f)) l e)
    | inr (inl f) ↦ absurd (o.trans a c b (ground (arith, f)) l e)
    | inr (inr f) ↦ f
  ]

  pub below_upper : (a b c : ℕ) → cmp a b ≡ below → cmp b c ≢ above → cmp a c ≡ below
  below_upper a b c e l = elim (Sign-cases (cmp a c)) [
    | inl f ↦ f
    | inr (inl f) ↦
        absurd (o.trans b c a l (ground (arith, o.reverse a c, f)) (o.reverse a b ∙ ap opposite e))
    | inr (inr f) ↦
        absurd (o.trans b c a l (ground (arith, o.reverse a c, f)) (o.reverse a b ∙ ap opposite e))
  ]

  -- The items from `x` up to `y` are in order.
  abbrev pub IsSorted : Vector → ℕ → ℕ → Type 0
  IsSorted v x y = (i j : ℕ) → x ≤ i → i ≤ j → j < y → cmp (at v i) (at v j) ≢ above

  -- The item is above those before `k`, and below those from `k` on.
  pub record Splits (v : Vector) (item x y k : ℕ) : Type 0 where
    pub low : x ≤ k
    pub high : k ≤ y
    pub lows : (j : ℕ) → x ≤ j → j < k → cmp item (at v j) ≡ above
    pub highs : (j : ℕ) → k ≤ j → j < y → cmp item (at v j) ≡ below

  -- Where a search has ended, by the sign of the last comparison.
  abbrev Located : Vector → ℕ → ℕ → ℕ → ℕ → Sign → Type 0
  Located v item x y pos below = Splits v item x y pos
  Located v item x y pos same = (x ≤ pos) × (pos < y) × (cmp item (at v pos) ≡ same)
  Located v item x y pos above = Splits v item x y (pos + 1)

  module _ (v : Vector) (item x y : ℕ) (sorted : IsSorted v x y) where
    find_loop-Located :
        (n first last pos : ℕ) (c : Sign)
        → x ≤ first
        → first ≤ last
        → last ≤ y
        → last ≤ n + first
        → ((j : ℕ) → x ≤ j → j < first → cmp item (at v j) ≡ above)
        → ((j : ℕ) → last ≤ j → j < y → cmp item (at v j) ≡ below)
        → (first ≡ last → Located v item x y pos c)
        → let r = find_loop cmp n v item first last pos c in Located v item x y r.0 r.1
    unfolding find_loop
    find_loop-Located zero first last pos c a b d e lows highs done = done (omega arith)
    find_loop-Located (suc n) first last pos c a b d e lows highs done =
        elim (Bool-cases (ltb first last)) [
          | inr f ↦ rw f (done (ground arith))
          | inl f ↦
              let mid = (first + last - 1) / 2 in
              let lt = ltb→lt _ _ f in
              elim (Sign-cases (cmp item (at v mid))) [
                | inr (inl g) ↦ rw (f, g) (omega arith, omega arith, g)
                | inl g ↦
                    let highs' : (j : ℕ) → mid ≤ j → j < y → cmp item (at v j) ≡ below = λ j p q.
                      below_upper item (at v mid) (at v j) g (sorted mid j (omega arith) p q) in
                    rw (f, g)
                      (find_loop-Located n first mid mid below a (omega arith) (omega arith)
                        (omega arith) lows highs'
                        (λ z. record {
                          low = omega arith;
                          high = omega arith;
                          lows = λ j p q. lows j p (omega arith);
                          highs = highs';
                        }))
                | inr (inr g) ↦
                    let lows' : (j : ℕ) → x ≤ j → j < mid + 1 → cmp item (at v j) ≡ above = λ j p q.
                      above_lower item (at v mid) (at v j) g
                        (sorted j mid p (omega arith) (omega arith)) in
                    rw (f, g)
                      (find_loop-Located n (mid + 1) last mid above (omega arith) (omega arith) d
                        (omega arith) lows' highs
                        (λ z. record {
                          low = omega arith;
                          high = omega arith;
                          lows = lows';
                          highs = λ j p q. highs j (omega arith) q;
                        }))
              ]
        ]

    pub vector_find_lem :
        x ≤ y
        → let r = vector_find cmp v item (x, y) in
          ((x ≤ r.0) × (r.0 < y) × (r.1 ≡ r.0 + 1) × (cmp item (at v r.0) ≡ same))
          ⊎ ((r.1 ≡ r.0) × Splits v item x y r.0)
    unfolding vector_find
    vector_find_lem le =
        let t = find_loop cmp (y - x) v item x y x below in
        let l : Located v item x y t.0 t.1 =
          find_loop-Located (y - x) x y x below (omega arith) le (omega arith) (omega arith)
            (λ j p q. absurd (omega arith)) (λ j p q. absurd (omega arith))
            (λ e. record {
              low = omega arith;
              high = le;
              lows = λ j p q. absurd (omega arith);
              highs = λ j p q. absurd (omega arith);
            }) in
        elim (Sign-cases t.1) [
          | inl e ↦ rw (vector_find, e) (inr (refl, subst (Located v item x y t.0) e l))
          | inr (inl e) ↦
              let m : Located v item x y t.0 same = subst (Located v item x y t.0) e l in
              rw (vector_find, e) (inl (m.0, m.1, refl, m.2))
          | inr (inr e) ↦ rw (vector_find, e) (inr (refl, subst (Located v item x y t.0) e l))
        ]
