-- ===== src/Vector/Sort/Insertion.antt =====
-- The insertion of one item among those before it, which are in order.
use nifty.Base.{
  ℕ, zero, suc, ◌+◌, ◌-◌, ◌≤◌, ◌<◌, ◌≡◌, ◌≢◌, ◌⊎◌, ◌∙◌, inl, inr, refl, Bool-cases, List, leb, ◌==◌,
  get_or, set, arith, length, length-set, get_or-set, ap,
}
use nifty.Vector.{Vector, Sign, above}
use nifty.Vector.Find.{IsOrder, IsSorted}
use nifty.Vector.Insert.{Inserted, Belongs}
use nifty.Vector.Sort.{is_above, shift_loop, sort_item}

-- A list of items and how many of them count, as a vector.
abbrev pub of_list : List ℕ → ℕ → Vector
of_list vec n = record { cap = length vec - 1; len = n; vec = vec }

module _ (cmp : ℕ → ℕ → Sign) (o : IsOrder cmp) where
  abbrev pub Ordered : List ℕ → ℕ → Type 0
  Ordered vec n = IsSorted cmp o (of_list vec n) 0 n

  -- The items from `j` up to `i`, all above `t`, have moved up by one.
  record IsOpened (b : List ℕ) (t i : ℕ) (vec : List ℕ) (j : ℕ) : Type 0 where
    size : length vec ≡ length b
    fits : j ≤ i
    lower : (k : ℕ) → k < j → get_or vec k 0 ≡ get_or b k 0
    upper : (k : ℕ) → j ≤ k → k < i → get_or vec (k + 1) 0 ≡ get_or b k 0
    aboves : (k : ℕ) → j ≤ k → k < i → cmp (get_or b k 0) t ≡ above
    still : j ≡ i → get_or vec i 0 ≡ get_or b i 0

  -- There the item below is not above `t`.
  abbrev IsPlaced : List ℕ → ℕ → ℕ → Type 0
  IsPlaced b t j = (j ≡ 0) ⊎ ((0 < j) × (cmp (get_or b (j - 1) 0) t ≢ above))

  shift_loop-IsOpened :
      (n : ℕ) (b : List ℕ) (t i : ℕ) (vec : List ℕ) (j : ℕ)
      → i < length b
      → j ≤ n
      → IsOpened b t i vec j
      → let r = shift_loop cmp n vec 1 t j in IsOpened b t i r.0 r.1 × IsPlaced b t r.1
  unfolding shift_loop
  shift_loop-IsOpened zero b t i vec j lt fuel v = (v, inl (omega arith))
  shift_loop-IsOpened (suc n) b t i vec j lt fuel v =
      let prev = get_or vec (j - 1) 0 in
      elim (Bool-cases (leb 1 j)) [
        | inr e ↦ rw e (v, inl (ground arith))
        | inl e ↦
            let pos : 0 < j = ground arith in
            let p : prev ≡ get_or b (j - 1) 0 = v.lower (j - 1) (omega arith) in
            elim (Bool-cases (is_above (cmp prev t))) [
              | inr f ↦ rw (e, f) (v, inr (pos, ground (arith, p, f)))
              | inl f ↦
                  let at = λ (k : ℕ). get_or-set vec j k prev 0 (omega (arith, v.size, v.fits)) in
                  rw (e, f)
                    (shift_loop-IsOpened n b t i (set vec j prev) (j - 1) lt (omega arith) (record {
                      size = length-set vec j prev ∙ v.size;
                      fits = omega (arith, v.fits);
                      lower = λ k l. ground (arith, at k, v.lower k);
                      upper = λ k l m. ground (
                        arith,
                        at (k + 1),
                        v.upper k,
                        p,
                        ap (λ (c : ℕ). get_or b c 0) {x = j - 1} {y = k},
                      );
                      aboves = λ k l m. ground (
                        arith,
                        v.aboves k,
                        p,
                        f,
                        ap (λ (c : ℕ). get_or b c 0) {x = j - 1} {y = k},
                      );
                      still = λ q. absurd (omega (arith, v.fits));
                    }))
            ]
      ]

  -- An item behind others in order, inserted among them.
  pub sort_item-Inserted :
      (vec : List ℕ) (i : ℕ)
      → 0 < i
      → i + 1 < length vec
      → Ordered vec i
      → (p : ℕ) × Inserted
          (of_list vec i)
          (get_or vec i 0)
          p
          (of_list (sort_item cmp vec 1 i) (i + 1))
        × Belongs cmp o (of_list vec i) (get_or vec i 0) p
  unfolding sort_item
  sort_item-Inserted vec i pos lt s =
      let t = get_or vec i 0 in
      let r = shift_loop cmp i vec 1 t i in
      let g = shift_loop-IsOpened i vec t i vec i (omega arith) (omega arith) (record {
        size = refl;
        fits = omega arith;
        lower = λ k l. refl;
        upper = λ k l m. absurd (omega arith);
        aboves = λ k l m. absurd (omega arith);
        still = λ e. refl;
      }) in
      let v = g.0 in
      let belongs : Belongs cmp o (of_list vec i) t r.1 = record {
        place = v.fits;
        lows = λ k l. elim g.1 [
          | inl e ↦ absurd (omega arith)
          | inr (q, below') ↦
              o.trans (get_or vec k 0) (get_or vec (r.1 - 1) 0) t
                (s k (r.1 - 1) (omega arith) (omega arith) (omega (arith, v.fits))) below'
        ];
        highs = λ k l m. ground (arith, o.reverse (get_or vec k 0) t, v.aboves k l m);
      } in
      let at = λ (k : ℕ). get_or-set r.0 r.1 k t 0 (omega (arith, v.size, v.fits)) in
      (
        r.1,
        elim (Bool-cases (r.1 == i)) [
          | inl e ↦ rw e (record {
            valid = record {
              stored = omega (arith, v.size);
              large = omega (arith, v.size);
              fits = omega (arith, v.size);
            };
            len = refl;
            place = v.fits;
            lower = v.lower;
            new = ground (arith, v.still, ap (λ (c : ℕ). get_or r.0 c 0) {x = r.1} {y = i});
            upper = v.upper;
          })
          | inr e ↦
              let size = length-set r.0 r.1 t in
              rw e (record {
                valid = record {
                  stored = omega (arith, v.size, size);
                  large = omega (arith, v.size, size);
                  fits = omega (arith, v.size, size);
                };
                len = refl;
                place = v.fits;
                lower = λ k l. ground (arith, at k, v.lower k);
                new = ground (arith, at r.1);
                upper = λ k l m. ground (arith, at (k + 1), v.upper k);
              })
        ],
        belongs,
      )
