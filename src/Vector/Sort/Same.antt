-- ===== src/Vector/Sort/Same.antt =====
-- Sorting moves the items about: every item occurs as often as before.
use nifty.Base.{
  ℕ, zero, suc, ◌+◌, ◌-◌, ◌≤◌, ◌<◌, ◌≡◌, ◌⊎◌, ◌∙◌, inl, inr, refl, ◌&&◌, Bool-cases, List, leb,
  ◌==◌, if◌then◌else◌, get_or, set, arith, length, length-set, get_or-set,
}
use nifty.Vector.{Sign}
use nifty.Vector.Sort.{is_above, shift_loop, sort_item, sort_pass}

abbrev pub is_here : ℕ → ℕ → ℕ
is_here a x = if a == x then 1 else 0

-- How often `x` is among the first `n` items.
pub occurs : List ℕ → ℕ → ℕ → ℕ
occurs vec x zero = 0
occurs vec x (suc n) = occurs vec x n + is_here (get_or vec n 0) x

occurs-set_above :
    (vec : List ℕ) (x n i v : ℕ)
    → i < length vec
    → n ≤ i
    → occurs (set vec i v) x n ≡ occurs vec x n
unfolding occurs
occurs-set_above vec x zero i v fits up = refl
occurs-set_above vec x (suc n) i v fits up =
    ground (arith, occurs-set_above vec x n i v fits (omega arith), get_or-set vec i n v 0 fits)

-- The old item is one less, the new one is one more.
occurs-set :
    (vec : List ℕ) (x n i v : ℕ)
    → i < length vec
    → i < n
    → occurs (set vec i v) x n + is_here (get_or vec i 0) x ≡ occurs vec x n + is_here v x
unfolding occurs
occurs-set vec x zero i v fits lt = absurd (omega arith)
occurs-set vec x (suc n) i v fits lt = elim (Bool-cases (i == n)) [
  | inl e ↦
      ground (arith, occurs-set_above vec x n i v fits (ground arith), get_or-set vec i n v 0 fits)
  | inr e ↦ ground (arith, occurs-set vec x n i v fits (ground arith), get_or-set vec i n v 0 fits)
]

module _ (cmp : ℕ → ℕ → Sign) (x n : ℕ) where
  -- What one array has of `x` among the first items, another of the same length has.
  pub record IsSame (a b : List ℕ) : Type 0 where
    pub size : length b ≡ length a
    pub occurs : occurs b x n ≡ occurs a x n

  -- With `t` put where the loop ends, nothing is lost.
  record IsShifted (vec : List ℕ) (t j : ℕ) (r : List ℕ × ℕ) : Type 0 where
    size : length r.0 ≡ length vec
    landed : r.1 ≤ j
    moved : (r.1 < j) ⊎ (r ≡ (vec, j))
    kept : occurs (set r.0 r.1 t) x n ≡ occurs (set vec j t) x n

  shift_loop-IsShifted :
      (k : ℕ) (vec : List ℕ) (h t j : ℕ)
      → 0 < h
      → j < n
      → n ≤ length vec
      → IsShifted vec t j (shift_loop cmp k vec h t j)
  unfolding shift_loop
  shift_loop-IsShifted zero vec h t j pos lt fits = record {
    size = refl;
    landed = omega arith;
    moved = inr refl;
    kept = refl;
  }
  shift_loop-IsShifted (suc k) vec h t j pos lt fits =
      elim (Bool-cases (leb h j && is_above (cmp (get_or vec (j - h) 0) t))) [
        | inr e ↦ rw e (record { size = refl; landed = omega arith; moved = inr refl; kept = refl })
        | inl e ↦
            let low : h ≤ j = ground arith in
            let prev = get_or vec (j - h) 0 in
            let up = set vec j prev in
            let s = length-set vec j prev in
            let i = shift_loop-IsShifted k up h t (j - h) pos (omega arith) (omega (arith, s)) in
            let a = occurs-set up x n (j - h) t (omega (arith, s)) (omega arith) in
            let b = occurs-set vec x n j prev (omega arith) lt in
            let c = occurs-set vec x n j t (omega arith) lt in
            let d = get_or-set vec j (j - h) prev 0 (omega arith) in
            rw e (record {
              size = i.size ∙ s;
              landed = omega (arith, i.landed);
              moved = inl (omega (arith, i.landed));
              kept = i.kept ∙ ground (arith, a, b, c, d);
            })
      ]

  pub sort_item-IsSame :
      (vec : List ℕ) (h i : ℕ) → 0 < h → i < n → n ≤ length vec → IsSame vec (sort_item cmp vec h i)
  unfolding sort_item
  sort_item-IsSame vec h i pos lt fits =
      let t = get_or vec i 0 in
      let r = shift_loop cmp i vec h t i in
      let s = shift_loop-IsShifted i vec h t i pos lt fits in
      let back = occurs-set vec x n i t (omega arith) lt in
      elim (Bool-cases (r.1 == i)) [
        | inl e ↦ elim s.moved [
          | inl l ↦ absurd (ground arith)
          | inr f ↦ rw (e, f) (record { size = refl; occurs = refl })
        ]
        | inr e ↦
            rw e (record {
              size = length-set r.0 r.1 t ∙ s.size;
              occurs = omega (arith, s.kept, back);
            })
      ]

  pub sort_pass-IsSame :
      (k : ℕ) (vec : List ℕ) (h i : ℕ)
      → 0 < h
      → i + k ≤ n
      → n ≤ length vec
      → IsSame vec (sort_pass cmp k vec h i)
  unfolding sort_pass
  sort_pass-IsSame zero vec h i pos lt fits = record { size = refl; occurs = refl }
  sort_pass-IsSame (suc k) vec h i pos lt fits =
      let s = sort_item-IsSame vec h i pos (omega arith) fits in
      let r =
        sort_pass-IsSame k (sort_item cmp vec h i) h (i + 1) pos (omega arith)
          (omega (arith, s.size, fits)) in
      record { size = r.size ∙ s.size; occurs = r.occurs ∙ s.occurs }
