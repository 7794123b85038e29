-- ===== src/Vector/Sets/Merge.antt =====
-- Sets as sorted vectors, and what a function makes of two of them.
use nifty.Base.{
  ℕ, ◌≤◌, ◌<◌, ◌≡◌, ◌∙◌, inl, inr, Bool, false, ◌&&◌, Bool-cases, List, ◌==◌, get_or, set, arith,
  length, length-set, get_or-set, ap,
}
use nifty.Vector.{Vector, Sign, below}
use nifty.Vector.Stack.{IsValid}
use nifty.Vector.Find.{IsOrder, below_upper}
use nifty.Vector.Sets.Walk.{contains, contains_none, contains_ext, Increasing, IsWalk}

module _ (cmp : ℕ → ℕ → Sign) (o : IsOrder cmp) where
  -- What is below an item of `b` is below those behind it.
  pub ahead :
      (b : List ℕ) (n₂ : ℕ)
      → Increasing cmp o b n₂
      → (x i j : ℕ) → cmp x (get_or b i 0) ≡ below
      → i ≤ j
      → j < n₂
      → cmp x (get_or b j 0) ≡ below
  ahead b n₂ up' x i j e le lt = elim (Bool-cases (i == j)) [
    | inl f ↦ ground (arith, e, ap (λ (c : ℕ). get_or b c 0) {x = i} {y = j})
    | inr f ↦
        below_upper cmp o x (get_or b i 0) (get_or b j 0) e
          (ground (arith, up' i j (ground arith) lt))
  ]

  -- A vector that is a set: valid, and in increasing order.
  pub record IsOrdered (v : Vector) : Type 0 where
    pub valid : IsValid v
    pub increasing : Increasing cmp o v.vec v.len

  -- A set with the items for which `keep` holds of being in the first set and in the second.
  pub record IsMerged (v w : Vector) (keep : Bool → Bool → Bool) (r : Vector) : Type 0 where
    pub set : IsOrdered r
    pub has :
        (x : ℕ)
        → contains cmp r.vec x r.len
          ≡ keep (contains cmp v.vec x v.len) (contains cmp w.vec x w.len)

  -- The end of either function.
  pub ended :
      (v w : Vector) (vv : IsOrdered v) (vw : IsOrdered w) (keep : Bool → Bool) (vec : List ℕ)
      (j i : ℕ) (fits : v.len ≤ length v.vec)
      → IsWalk cmp o v.vec w.vec v.len w.len fits vv.increasing vw.increasing keep vec v.len j i
      → IsMerged v w (λ p q. p && keep q) (record v { vec = set vec i 0; len = i })
  ended v w vv vw keep vec j i fits k =
      let room : i < length vec = omega (arith, k.size, k.behind, vv.valid.stored, vv.valid.fits) in
      let at = λ (c : ℕ). get_or-set vec i c 0 0 room in
      record {
        set = record {
          valid = record {
            stored = length-set vec i 0 ∙ (k.size ∙ vv.valid.stored);
            large = vv.valid.large;
            fits = omega (arith, k.behind, vv.valid.fits);
          };
          increasing = λ p q l m. ground (arith, at p, at q, k.sorted p q l m);
        };
        has = λ x. contains_ext cmp (set vec i 0) vec x i (λ c l. ground (arith, at c)) ∙ k.has x;
      }

  pub empty : (v : Vector) (x : ℕ) → v.len ≡ 0 → contains cmp v.vec x v.len ≡ false
  empty v x e = contains_none cmp v.vec x v.len (λ j l. absurd (omega (arith, e)))
