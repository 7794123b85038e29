-- ===== src/Vector/Sort/Order.antt =====
-- Sorting ends with a pass over neighbours, which leaves the items in order.
use nifty.Base.{
  ℕ, zero, suc, ◌+◌, ◌-◌, ◌/◌, ◌≤◌, ◌<◌, ◌≡◌, ◌∙◌, inl, inr, refl, true, Bool-cases, List, ltb, leb,
  ◌==◌, get_or, arith, length, sym, ap,
}
use mathlib.Core.Path.{subst}
use nifty.Vector.{Vector, Sign}
use nifty.Vector.Stack.{IsValid}
use nifty.Vector.Find.{IsOrder, IsSorted}
use nifty.Vector.Insert.{Inserted-IsSorted}
use nifty.Vector.Sort.{first_stride, sort_item, sort_pass, sort_loop, vector_sort}
use nifty.Vector.Sort.Same.{IsSame, occurs, sort_item-IsSame, sort_pass-IsSame}
use nifty.Vector.Sort.Strides.{stride, stride_large, first_stride-stride, third}
use nifty.Vector.Sort.Insertion.{Ordered, of_list, sort_item-Inserted}

module _ (cmp : ℕ → ℕ → Sign) (o : IsOrder cmp) where
  sort_pass-Ordered :
      (k : ℕ) (vec : List ℕ) (i m : ℕ)
      → 0 < i
      → i + k ≡ m
      → m < length vec
      → Ordered cmp o vec i
      → Ordered cmp o (sort_pass cmp k vec 1 i) m
  unfolding sort_pass
  sort_pass-Ordered zero vec i m pos e lt s = subst (Ordered cmp o vec) (omega arith) s
  sort_pass-Ordered (suc k) vec i m pos e lt s =
      let (p, t, b) = sort_item-Inserted cmp o vec i pos (omega arith) s in
      let size =
        (sort_item-IsSame cmp 0 m vec 1 i (omega arith) (omega arith) (omega arith)).size in
      sort_pass-Ordered k (sort_item cmp vec 1 i) (i + 1) m (omega arith) (omega arith)
        (omega (arith, size))
        (Inserted-IsSorted cmp o (of_list vec i) (of_list (sort_item cmp vec 1 i) (i + 1)) _ p s b
          t)

  pass-IsSame :
      (vec : List ℕ) (len h x : ℕ)
      → 0 < h
      → len ≤ length vec
      → IsSame cmp x len vec (sort_pass cmp (len - h) vec h h)
  unfolding sort_pass
  pass-IsSame vec len h x pos fits = elim (Bool-cases (leb h len)) [
    | inl e ↦ sort_pass-IsSame cmp x len (len - h) vec h h pos (ground arith) fits
    | inr e ↦
        let none_left : len - h ≡ 0 = ground arith in
        subst (λ n. IsSame cmp x len vec (sort_pass cmp n vec h h)) (sym none_left)
          (record { size = refl; occurs = refl })
  ]

  one_item : (vec : List ℕ) → Ordered cmp o vec 1
  one_item vec i j a b c =
      let same : i ≡ j = omega arith in
      ground
        (arith, o.reverse (get_or vec i 0) (get_or vec i 0), ap (λ (c : ℕ). get_or vec c 0) same)

  -- From the third of the stride on, the loop sorts the items.
  sort_loop-Ordered :
      (n k : ℕ) (vec : List ℕ) (len h : ℕ)
      → h / 3 ≡ stride k
      → k < n
      → 0 < len
      → len < length vec
      → let r = sort_loop cmp n vec len h in
        Ordered cmp o r len × ((x : ℕ) → IsSame cmp x len vec r)
  unfolding sort_loop stride
  sort_loop-Ordered zero k vec len h e fuel pos fits = absurd (omega arith)
  sort_loop-Ordered (suc n) zero vec len h e fuel pos fits =
      let one : h / 3 ≡ 1 = e in
      rw one (
        sort_pass-Ordered (len - 1) vec 1 len (omega arith) (omega arith) fits (one_item vec),
        λ x. pass-IsSame vec len 1 x (omega arith) (omega arith),
      )
  sort_loop-Ordered (suc n) (suc k) vec len h e fuel pos fits =
      let h' = stride (suc k) in
      let more : ltb 1 h' ≡ true = ground (arith, stride_large (suc k)) in
      let vec' = sort_pass cmp (len - h') vec h' h' in
      let same =
        λ (x : ℕ). pass-IsSame vec len h' x (omega (arith, stride_large (suc k))) (omega arith) in
      let r =
        sort_loop-Ordered n k vec' len h' (third k) (omega arith) pos
          (omega (arith, (same 0).size)) in
      rw (e, more)
        (
          r.0,
          λ x. record {
            size = (r.1 x).size ∙ (same x).size;
            occurs = (r.1 x).occurs ∙ (same x).occurs;
          },
        )

  before : (m : ℕ) → 0 < m → (n : ℕ) × (m ≡ suc n)
  before m l = (m - 1, omega arith)

  -- vector_sort, of a valid vector and by an order, leaves the vector valid and as long as it was,
  -- with the items in order, and each of them as often as it was there before.
  pub vector_sort_lem :
      (v : Vector)
      → IsValid v
      → let r = vector_sort cmp v in
        IsValid r
        × (r.len ≡ v.len)
        × IsSorted cmp o r 0 r.len
        × ((x : ℕ) → occurs r.vec x v.len ≡ occurs v.vec x v.len)
  unfolding vector_sort sort_pass stride
  vector_sort_lem v w = elim (Bool-cases (v.len == 0)) [
    | inl e ↦
        let none' : v.len ≡ 0 = ground arith in
        rw none' (
          record { stored = w.stored; large = w.large; fits = omega arith },
          refl,
          λ i j a b c. absurd (omega arith),
          λ x. refl,
        )
    | inr e ↦
        let pos : 0 < v.len = ground arith in
        let (m, f, _, g) = first_stride-stride v.len v.len 0 in
        let h = first_stride v.len v.len 1 in
        let (n, up) = before m (g pos pos) in
        let t : h / 3 ≡ stride n = ap (λ (c : ℕ). c / 3) (f ∙ ap stride up) ∙ third n in
        let fuel : n < h = omega (arith, t, stride_large n) in
        let r = sort_loop-Ordered h n v.vec v.len h t fuel pos (omega (arith, w.stored, w.fits)) in
        (
          record { stored = (r.1 0).size ∙ w.stored; large = w.large; fits = w.fits },
          refl,
          r.0,
          λ x. (r.1 x).occurs,
        )
  ]
