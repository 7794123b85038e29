-- ===== src/Vector/Delete.antt =====
-- vector_delete, of a sorted vector.
use nifty.Base.{ℕ, ◌+◌, ◌-◌, ◌≤◌, ◌<◌, ◌≡◌}
use nifty.Vector.{Vector, at, Sign}
use nifty.Vector.Stack.{IsValid}
use nifty.Vector.Find.{IsOrder}
use nifty.Vector.Range.{IsRange}

module _ (cmp : ℕ → ℕ → Sign) (o : IsOrder cmp) where
  -- Without the items of the range: those behind it have moved to its place.
  pub record IsDeleted (v : Vector) (item a b : ℕ) (r : Vector) : Type 0 where
    pub valid : IsValid r
    pub range : IsRange cmp o v item 0 v.len (a, b)
    pub len : r.len + (b - a) ≡ v.len
    pub lower : (j : ℕ) → j < a → at r j ≡ at v j
    pub upper : (j : ℕ) → a ≤ j → j < r.len → at r j ≡ at v (j + (b - a))
    pub null : at r r.len ≡ 0
