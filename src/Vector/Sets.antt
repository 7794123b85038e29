-- ===== src/Vector/Sets.antt =====
-- src/nft_vector.c: sorted vectors without duplicates as sets. The argument that is not returned
-- is freed, which is not modelled.
pub mod Walk
pub mod Merge
pub mod Intersection
pub mod Difference
pub mod Join
pub mod Union
pub mod Unique
use nifty.Base.{
  ℕ, zero, suc, ◌+◌, ◌-◌, Bool, true, false, ◌&&◌, ◌||◌, List, ltb, leb, ◌==◌, if◌then◌else◌,
  get_or, set, Alloc, Option, none, some, ◌∷◌, cells,
}
use nifty.Vector.{Vector, at, Sign, below, same, above, is_same}

module _ (cmp : ℕ → ℕ → Sign) where
  -- The loop of vector_intersection, over the array of the first vector, which it overwrites, and
  -- that of the second: the array, and where `i` ends. As many rounds as both have items suffice.
  pub meet_loop : ℕ → List ℕ → ℕ → List ℕ → ℕ → ℕ → ℕ → ℕ → List ℕ × ℕ
  meet_loop zero vec n₁ b n₂ i₁ i₂ i = (vec, i)
  meet_loop (suc n) vec n₁ b n₂ i₁ i₂ i =
      let c = cmp (get_or vec i₁ 0) (get_or b i₂ 0) in
      let first = meet_loop n vec n₁ b n₂ (i₁ + 1) i₂ i in
      let second = meet_loop n vec n₁ b n₂ i₁ (i₂ + 1) i in
      let both = meet_loop n (set vec i (get_or vec i₁ 0)) n₁ b n₂ (i₁ + 1) (i₂ + 1) (i + 1) in
      if ltb i₁ n₁ && ltb i₂ n₂
      then (elim c [ below ↦ first | above ↦ second | same ↦ both ])
      else (vec, i)

  pub vector_intersection : Vector → Vector → Vector
  unfolding meet_loop
  vector_intersection v w =
      let (vec, i) = meet_loop (v.len + w.len) v.vec v.len w.vec w.len 0 0 0 in
      if v.len == 0 then v else if w.len == 0 then w else record v { vec = set vec i 0; len = i }

  -- The first loop of vector_difference: the array, and where `i1` and `i` end.
  pub minus_loop : ℕ → List ℕ → ℕ → List ℕ → ℕ → ℕ → ℕ → ℕ → List ℕ × ℕ × ℕ
  minus_loop zero vec n₁ b n₂ i₁ i₂ i = (vec, i₁, i)
  minus_loop (suc n) vec n₁ b n₂ i₁ i₂ i =
      let c = cmp (get_or vec i₁ 0) (get_or b i₂ 0) in
      let first = minus_loop n (set vec i (get_or vec i₁ 0)) n₁ b n₂ (i₁ + 1) i₂ (i + 1) in
      let second = minus_loop n vec n₁ b n₂ i₁ (i₂ + 1) i in
      let both = minus_loop n vec n₁ b n₂ (i₁ + 1) (i₂ + 1) i in
      if ltb i₁ n₁ && ltb i₂ n₂
      then (elim c [ below ↦ first | above ↦ second | same ↦ both ])
      else (vec, i₁, i)

  -- The second loop, with `n` items left.
  pub copy_rest : ℕ → List ℕ → ℕ → ℕ → List ℕ × ℕ
  copy_rest zero vec i₁ i = (vec, i)
  copy_rest (suc n) vec i₁ i = copy_rest n (set vec i (get_or vec i₁ 0)) (i₁ + 1) (i + 1)

  pub vector_difference : Vector → Vector → Vector
  unfolding minus_loop copy_rest
  vector_difference v w =
      let (vec', i₁, i') = minus_loop (v.len + w.len) v.vec v.len w.vec w.len 0 0 0 in
      let (vec, i) = copy_rest (v.len - i₁) vec' i₁ i' in
      if (v.len == 0) || (w.len == 0) then v else record v { vec = set vec i 0; len = i }

  -- The first loop of vector_union, into a new array: the array, and where `i1`, `i2` and `i` end.
  pub join_loop : ℕ → List ℕ → List ℕ → ℕ → List ℕ → ℕ → ℕ → ℕ → ℕ → List ℕ × ℕ × ℕ × ℕ
  join_loop zero vec a n₁ b n₂ i₁ i₂ i = (vec, i₁, i₂, i)
  join_loop (suc n) vec a n₁ b n₂ i₁ i₂ i =
      let x = get_or a i₁ 0 in
      let y = get_or b i₂ 0 in
      let first = join_loop n (set vec i x) a n₁ b n₂ (i₁ + 1) i₂ (i + 1) in
      let second = join_loop n (set vec i y) a n₁ b n₂ i₁ (i₂ + 1) (i + 1) in
      let both = join_loop n (set vec i x) a n₁ b n₂ (i₁ + 1) (i₂ + 1) (i + 1) in
      if ltb i₁ n₁ && ltb i₂ n₂
      then (elim (cmp x y) [ below ↦ first | above ↦ second | same ↦ both ])
      else (vec, i₁, i₂, i)

  -- One of the two loops behind it, with `n` items left.
  pub copy_from : ℕ → List ℕ → List ℕ → ℕ → ℕ → List ℕ × ℕ
  copy_from zero vec a j i = (vec, i)
  copy_from (suc n) vec a j i = copy_from n (set vec i (get_or a j 0)) a (j + 1) (i + 1)

  -- vector_union; `none` is the use of the null that vector_new returned.
  pub vector_union : Alloc → Vector → Vector → Option Vector
  unfolding join_loop copy_from
  vector_union mem v w = if v.len == 0 then some w else if w.len == 0 then some v else elim mem [
    | none ↦ none
    | some junk ↦
        let cap = v.len + w.len in
        let (vec', i₁, i₂, i') = join_loop cap (0 ∷ cells junk cap) v.vec v.len w.vec w.len 0 0 0 in
        let (vec'', i'') = copy_from (v.len - i₁) vec' v.vec i₁ i' in
        let (vec, i) = copy_from (w.len - i₂) vec'' w.vec i₂ i'' in
        some (record { cap = cap; len = i; vec = set vec i 0 })
  ]

  -- The loop of vector_unique, with `n` items to go: the array, and where `i` ends.
  pub unique_loop : ℕ → List ℕ → ℕ → ℕ → List ℕ × ℕ
  unique_loop zero vec i j = (vec, i)
  unique_loop (suc n) vec i j =
      let moved = if ltb (i + 1) j then set vec (i + 1) (get_or vec j 0) else vec in
      let new = unique_loop n moved (i + 1) (j + 1) in
      let old = unique_loop n vec i (j + 1) in
      elim (cmp (get_or vec j 0) (get_or vec i 0)) [ above ↦ new | _ ↦ old ]

  pub vector_unique : Vector → Vector
  unfolding unique_loop
  vector_unique v =
      let (vec, i) = unique_loop (v.len - 1) v.vec 0 1 in
      if leb v.len 1 then v else record v { vec = set vec (i + 1) 0; len = i + 1 }

  -- The loop of vector_equal, from `i` on, with `n` items to go.
  pub equal_loop : ℕ → Vector → Vector → ℕ → Bool
  equal_loop zero v w i = true
  equal_loop (suc n) v w i =
      let rest = equal_loop n v w (i + 1) in if is_same (cmp (at v i) (at w i)) then rest else false

  pub vector_equal : Vector → Vector → Bool
  unfolding equal_loop
  vector_equal v w = if w.len == v.len then equal_loop v.len v w 0 else false
