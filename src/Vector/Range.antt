-- ===== src/Vector/Range.antt =====
-- vector_search_slice and vector_search, of a sorted vector: the range of the items that the
-- comparator takes for the same.
use nifty.Base.{
  ℕ, zero, suc, ◌+◌, ◌-◌, ◌≤◌, ◌<◌, ◌≡◌, ◌⊎◌, inl, inr, refl, true, false, ◌&&◌, Bool-cases, ltb,
  leb, ◌==◌, arith, ap,
}
use nifty.Vector.{
  Vector, at, Sign, same, is_same, vector_find, down_loop, up_loop, vector_search_slice,
  vector_search,
}
use nifty.Vector.Find.{IsOrder, IsSorted, Sign-cases, vector_find_lem, above_lower, below_upper}

module _ (cmp : ℕ → ℕ → Sign) (o : IsOrder cmp) where
  -- Where the loop down ends: all above it are the same, and the one below it is not.
  down_loop_lem :
      (n : ℕ) (v : Vector) (item low x : ℕ)
      → low ≤ x
      → x ≤ n
      → let r = down_loop cmp n v item low x in
        (low ≤ r)
        × (r ≤ x)
        × ((j : ℕ) → r ≤ j → j < x → cmp item (at v j) ≡ same)
        × ((r ≡ low) ⊎ ((low < r) × (is_same (cmp item (at v (r - 1))) ≡ false)))
  unfolding down_loop
  down_loop_lem zero v item low x le fuel =
      (le, omega arith, λ j p q. absurd (omega arith), inl (omega arith))
  down_loop_lem (suc n) v item low x le fuel = elim (Bool-cases (ltb low x)) [
    | inr e ↦ rw e (le, omega arith, λ j p q. absurd (omega arith), inl (ground arith))
    | inl e ↦ elim (Bool-cases (is_same (cmp item (at v (x - 1))))) [
      | inr f ↦ rw (e, f) (le, omega arith, λ j p q. absurd (omega arith), inr (ground arith, f))
      | inl f ↦
          let r = down_loop_lem n v item low (x - 1) (ground arith) (omega arith) in
          rw (e, f)
            (
              r.0,
              omega (arith, r.1),
              λ j p q. ground (arith, f, r.2 j p, ap (at v) {x = j} {y = x - 1}),
              r.3,
            )
    ]
  ]

  up_loop_lem :
      (n : ℕ) (v : Vector) (item high y : ℕ)
      → y ≤ high
      → high ≤ n + y
      → let r = up_loop cmp n v item high y in
        (y ≤ r)
        × (r ≤ high)
        × ((j : ℕ) → y ≤ j → j < r → cmp item (at v j) ≡ same)
        × ((r ≡ high) ⊎ ((r < high) × (is_same (cmp item (at v r)) ≡ false)))
  unfolding up_loop
  up_loop_lem zero v item high y le fuel =
      (omega arith, le, λ j p q. absurd (omega arith), inl (omega arith))
  up_loop_lem (suc n) v item high y le fuel = elim (Bool-cases (ltb y high)) [
    | inr e ↦ rw e (omega arith, le, λ j p q. absurd (omega arith), inl (ground arith))
    | inl e ↦ elim (Bool-cases (is_same (cmp item (at v y)))) [
      | inr f ↦ rw (e, f) (omega arith, le, λ j p q. absurd (omega arith), inr (ground arith, f))
      | inl f ↦
          let r = up_loop_lem n v item high (y + 1) (ground arith) (omega arith) in
          rw (e, f)
            (
              omega (arith, r.0),
              r.1,
              λ j p q. ground (arith, f, r.2 j, ap (at v) {x = j} {y = y}),
              r.3,
            )
    ]
  ]

  -- A range within the slice, of just the items there that the comparator takes for the same.
  pub record IsRange (v : Vector) (item x y : ℕ) (r : ℕ × ℕ) : Type 0 where
    pub start : x ≤ r.0
    pub order : r.0 ≤ r.1
    pub end : r.1 ≤ y
    pub inside : (j : ℕ) → x ≤ j → j < y → is_same (cmp item (at v j)) ≡ (leb r.0 j && ltb j r.1)

  module _ (v : Vector) (item x y : ℕ) (sorted : IsSorted cmp o v x y) where
    -- The items before one that is not the same, in front of one that is, are not the same.
    before :
        (d a j : ℕ)
        → x ≤ j
        → j < d
        → d ≤ a
        → a < y
        → cmp item (at v a) ≡ same
        → is_same (cmp item (at v (d - 1))) ≡ false
        → is_same (cmp item (at v j)) ≡ false
    before d a j p q l m e f =
        let up = sorted (d - 1) a (omega arith) (omega arith) m in
        let down = sorted j (d - 1) p (omega arith) (omega arith) in
        elim (Sign-cases (cmp item (at v (d - 1)))) [
          | inl g ↦ absurd (ground (arith, e, below_upper cmp o item (at v (d - 1)) (at v a) g up))
          | inr (inl g) ↦ absurd (ground (arith, f, g))
          | inr (inr g) ↦ rw (above_lower cmp o item (at v (d - 1)) (at v j) g down) refl
        ]

    after :
        (d a j : ℕ)
        → x ≤ a
        → a < d
        → d ≤ j
        → j < y
        → cmp item (at v a) ≡ same
        → is_same (cmp item (at v d)) ≡ false
        → is_same (cmp item (at v j)) ≡ false
    after d a j p q l m e f =
        let down = sorted a d p (omega arith) (omega arith) in
        let up = sorted d j (omega arith) l m in
        elim (Sign-cases (cmp item (at v d))) [
          | inr (inr g) ↦
              absurd (ground (arith, e, above_lower cmp o item (at v d) (at v a) g down))
          | inr (inl g) ↦ absurd (ground (arith, f, g))
          | inl g ↦ rw (below_upper cmp o item (at v d) (at v j) g up) refl
        ]

    widened :
        (a : ℕ)
        → x ≤ a
        → a < y
        → cmp item (at v a) ≡ same
        → IsRange v item x y (down_loop cmp a v item x a, up_loop cmp y v item y (a + 1))
    widened a p q e =
        let d = down_loop_lem a v item x a p (omega arith) in
        let u = up_loop_lem y v item y (a + 1) (omega arith) (omega arith) in
        let low = down_loop cmp a v item x a in
        let high = up_loop cmp y v item y (a + 1) in
        record {
          start = d.0;
          order = omega (arith, d.1, u.0);
          end = u.1;
          inside = λ j l m. elim (Bool-cases (leb low j)) [
            | inr f ↦ elim d.3 [
              | inl g ↦ absurd (ground arith)
              | inr g ↦ rw f (before low a j l (ground arith) d.1 q e g.1)
            ]
            | inl f ↦ elim (Bool-cases (ltb j high)) [
              | inr g ↦ elim u.3 [
                | inl h ↦ absurd (ground arith)
                | inr h ↦ rw (f, g) (after high a j p (omega (arith, u.0)) (ground arith) m e h.1)
              ]
              | inl g ↦ rw (f, g) (ground (arith, d.2 j, u.2 j, e, ap (at v) {x = j} {y = a}))
            ]
          ];
        }

    -- vector_search_slice, of a sorted slice, returns a range within it of just the items there that
    -- the comparator takes for the same.
    pub vector_search_slice_lem : x ≤ y → IsRange v item x y (vector_search_slice cmp v item (x, y))
    unfolding vector_search_slice
    vector_search_slice_lem le = elim (vector_find_lem cmp o v item x y sorted le) [
      | inl (p, q, e, f) ↦
          let r = vector_find cmp v item (x, y) in
          let one : (r.0 + 1 - r.0 == 0) ≡ false = ground arith in rw (e, one) (widened r.0 p q f)
      | inr (e, k) ↦
          let r = vector_find cmp v item (x, y) in
          let none' : (r.0 - r.0 == 0) ≡ true = ground arith in
          rw (e, none')
            (record {
              start = k.low;
              order = omega arith;
              end = k.high;
              inside = λ j l m. ground (arith, k.lows j l, k.highs j);
            })
    ]

  pub vector_search_lem :
      (v : Vector) (item : ℕ)
      → IsSorted cmp o v 0 v.len
      → IsRange v item 0 v.len (vector_search cmp v item)
  unfolding vector_search
  vector_search_lem v item s = vector_search_slice_lem v item 0 v.len s (omega arith)
