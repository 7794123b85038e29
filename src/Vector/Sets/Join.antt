-- ===== src/Vector/Sets/Join.antt =====
-- The steps of vector_union: one item more is written out.
use nifty.Base.{
  ℕ, ◌+◌, ◌≤◌, ◌<◌, ◌≡◌, ◌∙◌, inl, inr, ◌||◌, Bool-cases, List, ◌==◌, get_or, set, arith, length,
  length-set, get_or-set, sym,
}
use nifty.Vector.{Sign, below, same, is_same}
use nifty.Vector.Find.{IsOrder}
use nifty.Vector.Sets.Walk.{
  contains, contains_next, contains_ext, Increasing, lower_below, same_trans,
}
use nifty.Vector.Sets.Merge.{ahead}

module _ (cmp : ℕ → ℕ → Sign) (o : IsOrder cmp) where
  -- The items from `j` on, of `n`, are above `x`.
  abbrev Ahead : ℕ → List ℕ → ℕ → ℕ → Type 0
  Ahead x a n j = (k : ℕ) → j ≤ k → k < n → cmp x (get_or a k 0) ≡ below

  Ahead-first :
      (x : ℕ) (a : List ℕ) (n j : ℕ)
      → Increasing cmp o a n
      → (j < n → cmp x (get_or a j 0) ≡ below)
      → Ahead x a n j
  Ahead-first x a n j up e k l m = ahead cmp o a n up x j k (e (omega arith)) l m

  module _ (a b : List ℕ) (n₁ n₂ : ℕ) (up : Increasing cmp o a n₁)
      (up' : Increasing cmp o b n₂) where
    -- The first `i` items are those of `a` before `i₁` and those of `b` before `i₂`, and below
    -- what is left of both.
    pub record IsJoined (vec : List ℕ) (i₁ i₂ i : ℕ) : Type 0 where
      pub size : length vec ≡ n₁ + n₂ + 1
      pub within : i₁ ≤ n₁
      pub within' : i₂ ≤ n₂
      pub behind : i ≤ i₁ + i₂
      pub sorted : Increasing cmp o vec i
      pub under : (k : ℕ) → k < i → Ahead (get_or vec k 0) a n₁ i₁
      pub under' : (k : ℕ) → k < i → Ahead (get_or vec k 0) b n₂ i₂
      pub has : (x : ℕ) → contains cmp vec x i ≡ (contains cmp a x i₁ || contains cmp b x i₂)

    -- An item below what is left, and above what is there, is written out.
    written :
        (vec : List ℕ) (i₁ i₂ i j₁ j₂ t : ℕ)
        → IsJoined vec i₁ i₂ i
        → i₁ ≤ j₁
        → j₁ ≤ n₁
        → i₂ ≤ j₂
        → j₂ ≤ n₂
        → i₁ + i₂ < j₁ + j₂
        → ((k : ℕ) → k < i → cmp (get_or vec k 0) t ≡ below)
        → Ahead t a n₁ j₁
        → Ahead t b n₂ j₂
        → ((x : ℕ)
            → (contains cmp a x j₁ || contains cmp b x j₂)
              ≡ ((contains cmp a x i₁ || contains cmp b x i₂) || is_same (cmp x t)))
        → IsJoined (set vec i t) j₁ j₂ (i + 1)
    written vec i₁ i₂ i j₁ j₂ t w l₁ m₁ l₂ m₂ more last p q h =
        let room : i < length vec = omega (arith, w.size, w.behind) in
        let at = λ (k : ℕ). get_or-set vec i k t 0 room in
        record {
          size = length-set vec i t ∙ w.size;
          within = m₁;
          within' = m₂;
          behind = omega (arith, w.behind);
          sorted = λ k j l m. ground (arith, at k, at j, w.sorted k j l, last k);
          under = λ k l j m n. elim (Bool-cases (i == k)) [
            | inl f ↦ ground (arith, at k, p j m n)
            | inr f ↦ ground (arith, at k, w.under k (ground arith) j (omega arith) n)
          ];
          under' = λ k l j m n. elim (Bool-cases (i == k)) [
            | inl f ↦ ground (arith, at k, q j m n)
            | inr f ↦ ground (arith, at k, w.under' k (ground arith) j (omega arith) n)
          ];
          has = λ x.
              let old = contains_ext cmp (set vec i t) vec x i (λ j l. ground (arith, at j)) in
              let head : get_or (set vec i t) i 0 ≡ t = ground (arith, at i) in
              rw (contains_next cmp (set vec i t) x i, head, old, w.has x) (sym (h x));
        }

    same_as : (x p q : ℕ) → cmp p q ≡ same → is_same (cmp x q) ≡ is_same (cmp x p)
    same_as x p q e = elim (Bool-cases (is_same (cmp x p))) [
      | inl f ↦ ground (arith, f, same_trans cmp o x p q (ground (arith, f)) e)
      | inr f ↦ elim (Bool-cases (is_same (cmp x q))) [
        | inl g ↦
            let r : cmp q p ≡ same = ground (arith, o.reverse p q, e) in
            absurd (ground (arith, f, same_trans cmp o x q p (ground (arith, g)) r))
        | inr g ↦ g ∙ sym f
      ]
    ]

    pub take_first :
        (vec : List ℕ) (i₁ i₂ i : ℕ)
        → IsJoined vec i₁ i₂ i
        → i₁ < n₁
        → (i₂ < n₂ → cmp (get_or a i₁ 0) (get_or b i₂ 0) ≡ below)
        → IsJoined (set vec i (get_or a i₁ 0)) (i₁ + 1) i₂ (i + 1)
    take_first vec i₁ i₂ i w l e =
        let t = get_or a i₁ 0 in
        written vec i₁ i₂ i (i₁ + 1) i₂ t w (omega arith) (omega arith) (omega arith) w.within'
          (omega arith) (λ k m. w.under k m i₁ (omega arith) l) (λ k m n. up i₁ k (omega arith) n)
          (Ahead-first t b n₂ i₂ up' e) (λ x. rw (contains_next cmp a x i₁) (ground arith))

    pub take_second :
        (vec : List ℕ) (i₁ i₂ i : ℕ)
        → IsJoined vec i₁ i₂ i
        → i₂ < n₂
        → (i₁ < n₁ → cmp (get_or b i₂ 0) (get_or a i₁ 0) ≡ below)
        → IsJoined (set vec i (get_or b i₂ 0)) i₁ (i₂ + 1) (i + 1)
    take_second vec i₁ i₂ i w l e =
        let t = get_or b i₂ 0 in
        written vec i₁ i₂ i i₁ (i₂ + 1) t w (omega arith) w.within (omega arith) (omega arith)
          (omega arith) (λ k m. w.under' k m i₂ (omega arith) l) (Ahead-first t a n₁ i₁ up e)
          (λ k m n. up' i₂ k (omega arith) n) (λ x. rw (contains_next cmp b x i₂) (ground arith))

    pub take_both :
        (vec : List ℕ) (i₁ i₂ i : ℕ)
        → IsJoined vec i₁ i₂ i
        → i₁ < n₁
        → i₂ < n₂
        → cmp (get_or a i₁ 0) (get_or b i₂ 0) ≡ same
        → IsJoined (set vec i (get_or a i₁ 0)) (i₁ + 1) (i₂ + 1) (i + 1)
    take_both vec i₁ i₂ i w l m e =
        let t = get_or a i₁ 0 in
        let u = get_or b i₂ 0 in
        written vec i₁ i₂ i (i₁ + 1) (i₂ + 1) t w (omega arith) (omega arith) (omega arith)
          (omega arith) (omega arith) (λ k n. w.under k n i₁ (omega arith) l)
          (λ k n p. up i₁ k (omega arith) p)
          (λ k n p.
            lower_below cmp o t u (get_or b k 0) (ground (arith, e)) (up' i₂ k (omega arith) p))
          (λ x.
            rw (contains_next cmp a x i₁, contains_next cmp b x i₂, same_as x t u e) (ground arith))
