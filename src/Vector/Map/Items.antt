-- ===== src/Vector/Map/Items.antt =====
-- The items of a vector as a list: what vector_apply, vector_filter and vector_reduce make of it.
use mathlib.Core.List.{append_assoc, append-nil}
use nifty.Base.{
  ℕ, zero, suc, ◌+◌, ◌-◌, ◌≤◌, ◌<◌, ◌≡◌, ◌≢◌, ◌∙◌, refl, sym, ap, ap₂, Bool, true, false, List, [],
  ◌∷◌, ◌++◌, ◌==◌, if◌then◌else◌, get_or, set, length, length-set, get_or-set, arith, Bool-cases,
  inl, inr,
}
use nifty.Vector.{Vector, at}
use nifty.Vector.Stack.{IsValid}
use nifty.Vector.Map.{
  each_loop, vector_apply, filter_loop, vector_filter, reduce_loop, vector_reduce,
}

-- The `n` cells from `k` on.
unfoldable pub cells_from : List ℕ → ℕ → ℕ → List ℕ
cells_from vec k zero = []
cells_from vec k (suc n) = get_or vec k 0 ∷ cells_from vec (k + 1) n

abbrev pub items : Vector → List ℕ
items v = cells_from v.vec 0 v.len

abbrev pub filtered : (ℕ → Bool) → List ℕ → List ℕ
filtered keep [] = []
filtered keep (x ∷ xs) = if keep x then x ∷ filtered keep xs else filtered keep xs

abbrev pub folded : {S : Type 0} → (S → ℕ → S) → S → List ℕ → S
folded f s [] = s
folded f s (x ∷ xs) = folded f (f s x) xs

-- A list that is combined from its first item on, and 0 for an empty one.
abbrev pub reduced : (ℕ → ℕ → ℕ) → List ℕ → ℕ
reduced f [] = 0
reduced f (x ∷ xs) = folded f x xs

cells_from_cong :
    (a b : List ℕ) (k n : ℕ)
    → ((m : ℕ) → k ≤ m → m < k + n → get_or a m 0 ≡ get_or b m 0)
    → cells_from a k n ≡ cells_from b k n
unfolding cells_from
cells_from_cong a b k zero h = refl
cells_from_cong a b k (suc n) h =
    ap₂ (λ (x : ℕ) (xs : List ℕ). x ∷ xs) (h k (omega arith) (omega arith))
      (cells_from_cong a b (k + 1) n (λ m l u. h m (omega arith) (omega arith)))

cells_from_snoc :
    (a : List ℕ) (k n : ℕ) → cells_from a k (suc n) ≡ cells_from a k n ++ (get_or a (k + n) 0 ∷ [])
unfolding cells_from
cells_from_snoc a k zero =
    let here : k ≡ k + 0 = omega arith in ap (λ (m : ℕ). get_or a m 0 ∷ []) here
cells_from_snoc a k (suc n) =
    let there : k + 1 + n ≡ k + suc n = omega arith in
    ap (λ (xs : List ℕ). get_or a k 0 ∷ xs)
      (cells_from_snoc a (k + 1) n
        ∙ ap (λ (m : ℕ). cells_from a (k + 1) n ++ (get_or a m 0 ∷ [])) there)

set_other :
    (vec : List ℕ) (i m x : ℕ) → i < length vec → i ≢ m → get_or (set vec i x) m 0 ≡ get_or vec m 0
set_other vec i m x lt n = ground (arith, get_or-set vec i m x 0 lt)

set_same : (vec : List ℕ) (i x : ℕ) → i < length vec → get_or (set vec i x) (0 + i) 0 ≡ x
set_same vec i x lt = ground (arith, get_or-set vec i (0 + i) x 0 lt)

set_here : (vec : List ℕ) (i x : ℕ) → i < length vec → get_or (set vec i x) i 0 ≡ x
set_here vec i x lt = ground (arith, get_or-set vec i i x 0 lt)

module _ (keep : ℕ → Bool) where
  -- What the loop returns, from `j` on: the array, and how many items it kept.
  record IsFiltered (vec : List ℕ) (i j n : ℕ) (r : List ℕ × ℕ) : Type 0 where
    kept : cells_from r.0 0 r.1 ≡ cells_from vec 0 i ++ filtered keep (cells_from vec j n)
    size : length r.0 ≡ length vec
    few : r.1 ≤ i + n

  module _ (n : ℕ) (vec : List ℕ) (i j : ℕ) where
    step_over :
        keep (get_or vec j 0) ≡ false
        → filter_loop (suc n) keep vec i j ≡ filter_loop n keep vec i (j + 1)
    unfolding filter_loop
    step_over e = rw (filter_loop, e) refl

    step_on :
        keep (get_or vec j 0) ≡ true
        → filter_loop (suc n) keep vec i j
          ≡ filter_loop n keep (set vec i (get_or vec j 0)) (i + 1) (j + 1)
    unfolding filter_loop
    step_on e = rw (filter_loop, e) refl

    -- The item that is written behind those kept so far.
    put_behind :
        i ≤ j
        → j < length vec
        → cells_from (set vec i (get_or vec j 0)) 0 (i + 1)
          ≡ cells_from vec 0 i ++ (get_or vec j 0 ∷ [])
    put_behind le lt =
        let x = get_or vec j 0 in
        let one : i + 1 ≡ suc i = omega arith in
        ap (cells_from (set vec i x) 0) one
        ∙ cells_from_snoc (set vec i x) 0 i
        ∙ ap₂ (λ (xs : List ℕ) (y : ℕ). xs ++ (y ∷ []))
            (cells_from_cong (set vec i x) vec 0 i
              (λ m l u. set_other vec i m x (omega arith) (λ e. omega arith)))
            (set_same vec i x (omega arith))

    rest_same :
        i ≤ j
        → j < length vec
        → cells_from (set vec i (get_or vec j 0)) (j + 1) n ≡ cells_from vec (j + 1) n
    rest_same le lt =
        cells_from_cong (set vec i (get_or vec j 0)) vec (j + 1) n
          (λ m l u. set_other vec i m (get_or vec j 0) (omega arith) (λ e. omega arith))

  filter_loop_lem :
      (n : ℕ) (vec : List ℕ) (i j : ℕ)
      → i ≤ j
      → j + n < length vec
      → IsFiltered vec i j n (filter_loop n keep vec i j)
  unfolding filter_loop cells_from
  filter_loop_lem zero vec i j le lt = record {
    kept = sym (append-nil (cells_from vec 0 i));
    size = refl;
    few = omega arith;
  }
  filter_loop_lem (suc n) vec i j le lt = elim (Bool-cases (keep (get_or vec j 0))) [
    | inr e ↦
        let o = filter_loop_lem n vec i (j + 1) (omega arith) (omega arith) in
        rw (step_over n vec i j e)
          (record { kept = rw e o.kept; size = o.size; few = omega (arith, o.few) })
    | inl e ↦
        let x = get_or vec j 0 in
        let vec' = set vec i x in
        let o =
          filter_loop_lem n vec' (i + 1) (j + 1) (omega arith)
            (omega (arith, length-set vec i x)) in
        rw (step_on n vec i j e) (record {
          kept = rw e (
              o.kept
              ∙ ap₂ (λ (xs ys : List ℕ). xs ++ filtered keep ys)
                  (put_behind n vec i j le (omega arith)) (rest_same n vec i j le (omega arith))
              ∙ append_assoc (cells_from vec 0 i) (x ∷ [])
                  (filtered keep (cells_from vec (j + 1) n)));
          size = o.size ∙ length-set vec i x;
          few = omega (arith, o.few);
        })
  ]

  -- vector_filter leaves a valid vector of the items that the function keeps, in their order, with a
  -- null behind them.
  pub vector_filter_lem :
      (v : Vector)
      → IsValid v
      → IsValid (vector_filter keep v)
        × (items (vector_filter keep v) ≡ filtered keep (items v))
        × (at (vector_filter keep v) (vector_filter keep v).len ≡ 0)
  unfolding vector_filter cells_from
  vector_filter_lem v w =
      let big : (v.cap == 0) ≡ false = ground (arith, w.large) in
      let o = filter_loop_lem v.len v.vec 0 0 (omega arith) (omega (arith, w.fits, w.stored)) in
      let r = filter_loop v.len keep v.vec 0 0 in
      let inside : r.1 < length r.0 = omega (arith, o.few, o.size, w.fits, w.stored) in
      rw big (
        record {
          stored = length-set r.0 r.1 0 ∙ o.size ∙ w.stored;
          large = w.large;
          fits = omega (arith, o.few, w.fits);
        },
        cells_from_cong (set r.0 r.1 0) r.0 0 r.1
              (λ m l u. set_other r.0 r.1 m 0 inside (λ e. omega arith))
            ∙ o.kept,
        set_here r.0 r.1 0 inside,
      )

module _ {S : Type 0} (f : S → ℕ → S) (v : Vector) where
  each_loop_lem : (n j : ℕ) (s : S) → each_loop n f v j s ≡ folded f s (cells_from v.vec j n)
  unfolding each_loop cells_from
  each_loop_lem zero j s = refl
  each_loop_lem (suc n) j s = each_loop_lem n (j + 1) (f s (at v j))

  -- vector_apply calls the function on each item, once and in order.
  pub vector_apply_lem : (s : S) → vector_apply f v s ≡ folded f s (items v)
  unfolding vector_apply
  vector_apply_lem s = each_loop_lem v.len 0 s

module _ (f : ℕ → ℕ → ℕ) (v : Vector) where
  reduce_loop_lem :
      (n j result : ℕ) → reduce_loop n f v j result ≡ folded f result (cells_from v.vec j n)
  unfolding reduce_loop cells_from
  reduce_loop_lem zero j result = refl
  reduce_loop_lem (suc n) j result = reduce_loop_lem n (j + 1) (f result (at v j))

  reduce_any :
      (n : ℕ)
      → (if n == 0 then 0 else reduce_loop (n - 1) f v 1 (at v 0))
        ≡ reduced f (cells_from v.vec 0 n)
  unfolding cells_from
  reduce_any zero = refl
  reduce_any (suc n) =
      let more : (suc n == 0) ≡ false = ground arith in
      let rest : suc n - 1 ≡ n = omega arith in rw (more, rest) (reduce_loop_lem n 1 (at v 0))

  -- vector_reduce combines the items from the first on, in order, and returns 0 for an empty vector.
  pub vector_reduce_lem : vector_reduce f v ≡ reduced f (items v)
  unfolding vector_reduce
  vector_reduce_lem = reduce_any v.len
