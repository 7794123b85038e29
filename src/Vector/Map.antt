-- ===== src/Vector/Map.antt =====
-- vector_apply, vector_filter and vector_reduce in src/nft_vector.c: the functions that take a
-- function and call it on each item. The calls thread a state, and the argument that the functions
-- pass on is part of the function.
pub mod Items
use nifty.Base.{
  ℕ, zero, suc, ◌+◌, ◌-◌, Bool, true, false, List, [], ◌∷◌, ◌==◌, if◌then◌else◌, get_or, set,
}
use nifty.Vector.{Vector, at}

module _ {S : Type 0} where
  -- vector_apply
  pub each_loop : ℕ → (S → ℕ → S) → Vector → ℕ → S → S
  each_loop zero f v j s = s
  each_loop (suc n) f v j s = each_loop n f v (j + 1) (f s (at v j))

  pub vector_apply : (S → ℕ → S) → Vector → S → S
  vector_apply f v s = each_loop v.len f v 0 s

-- The loop of vector_filter and vector_filter_2.
pub filter_loop : ℕ → (ℕ → Bool) → List ℕ → ℕ → ℕ → List ℕ × ℕ
filter_loop zero keep vec i j = (vec, i)
filter_loop (suc n) keep vec i j =
    let item = get_or vec j 0 in
    let kept = keep item in
    filter_loop n keep (if kept then set vec i item else vec) (if kept then i + 1 else i) (j + 1)

-- A vector of capacity zero has no array.
pub vector_filter : (ℕ → Bool) → Vector → Vector
vector_filter keep v =
    if v.cap == 0
    then v
    else (let (vec, i) = filter_loop v.len keep v.vec 0 0 in
        record v { vec = set vec i 0; len = i })

pub reduce_loop : ℕ → (ℕ → ℕ → ℕ) → Vector → ℕ → ℕ → ℕ
reduce_loop zero f v j result = result
reduce_loop (suc n) f v j result = reduce_loop n f v (j + 1) (f result (at v j))

-- vector_reduce, which returns NULL for an empty vector.
pub vector_reduce : (ℕ → ℕ → ℕ) → Vector → ℕ
vector_reduce f v = if v.len == 0 then 0 else reduce_loop (v.len - 1) f v 1 (at v 0)
