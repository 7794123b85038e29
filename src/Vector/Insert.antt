-- ===== src/Vector/Insert.antt =====
-- vector_insert keeps a sorted vector sorted.
use mathlib.Core.Path.{subst₂}
use nifty.Base.{
  ℕ, ◌+◌, ◌-◌, ◌≤◌, ◌<◌, ◌≡◌, ◌≢◌, ◌⊎◌, inl, inr, Bool-cases, ltb, ltb→lt, ◌==◌, arith, ap, ◌∙◌,
  sym,
}
use nifty.Vector.{Vector, at, Sign, above}
use nifty.Vector.Stack.{IsValid}
use nifty.Vector.Find.{IsOrder, IsSorted}

-- The vector with the item at `p`, and the items from there on one place up.
pub record Inserted (v : Vector) (item p : ℕ) (r : Vector) : Type 0 where
  pub valid : IsValid r
  pub len : r.len ≡ v.len + 1
  pub place : p ≤ v.len
  pub lower : (j : ℕ) → j < p → at r j ≡ at v j
  pub new : at r p ≡ item
  pub upper : (j : ℕ) → p ≤ j → j < v.len → at r (j + 1) ≡ at v j

-- What is at an index, by its side of `p`.
place :
    (v r : Vector) (item p : ℕ)
    → Inserted v item p r
    → (i : ℕ) → i < r.len
    → ((i < p) × (at r i ≡ at v i))
      ⊎ ((i ≡ p) × (at r i ≡ item))
      ⊎ ((b : ℕ) × (i ≡ b + 1) × (p ≤ b) × (at r i ≡ at v b))
place v r item p t i lt = elim (Bool-cases (ltb i p)) [
  | inl e ↦ inl (ltb→lt _ _ e, t.lower i (ltb→lt _ _ e))
  | inr e ↦ elim (Bool-cases (i == p)) [
    | inl f ↦ let same : i ≡ p = ground arith in inr (inl (same, ap (at r) same ∙ t.new))
    | inr f ↦
        let up : i ≡ i - 1 + 1 = ground arith in
        inr (
          inr (
            i - 1,
            up,
            ground arith,
            ap (at r) up ∙ t.upper (i - 1) (ground arith) (ground (arith, t.len)),
          ))
  ]
]

module _ (cmp : ℕ → ℕ → Sign) (o : IsOrder cmp) where
  -- The item may stand at `p`.
  pub record Belongs (v : Vector) (item p : ℕ) : Type 0 where
    pub place : p ≤ v.len
    pub lows : (j : ℕ) → j < p → cmp (at v j) item ≢ above
    pub highs : (j : ℕ) → p ≤ j → j < v.len → cmp item (at v j) ≢ above

  -- Put where it belongs, an item leaves the vector sorted.
  pub Inserted-IsSorted :
      (v r : Vector) (item p : ℕ)
      → IsSorted cmp o v 0 v.len
      → Belongs v item p
      → Inserted v item p r
      → IsSorted cmp o r 0 r.len
  Inserted-IsSorted v r item p s k t i j a le lt = elim (place v r item p t i (omega arith)) [
    | inl (l, e) ↦ elim (place v r item p t j lt) [
      | inl (m, f) ↦ both e f (s i j (omega arith) le (omega arith))
      | inr (inl (m, f)) ↦ both e f (k.lows i l)
      | inr (inr (c, m, q, f)) ↦ both e f (s i c (omega arith) (omega arith) (omega (arith, t.len)))
    ]
    | inr (inl (l, e)) ↦ elim (place v r item p t j lt) [
      | inl (m, f) ↦ absurd (omega arith)
      | inr (inl (m, f)) ↦ both e f (ground (arith, o.reverse item item))
      | inr (inr (c, m, q, f)) ↦ both e f (k.highs c q (omega (arith, t.len)))
    ]
    | inr (inr (b, l, n, e)) ↦ elim (place v r item p t j lt) [
      | inl (m, f) ↦ absurd (omega arith)
      | inr (inl (m, f)) ↦ absurd (omega arith)
      | inr (inr (c, m, q, f)) ↦ both e f (s b c (omega arith) (omega arith) (omega (arith, t.len)))
    ]
  ]
    where
      both : {b c : ℕ} → at r i ≡ b → at r j ≡ c → cmp b c ≢ above → cmp (at r i) (at r j) ≢ above
      both e f n = subst₂ (λ (b c : ℕ). cmp b c ≢ above) (sym e) (sym f) n
