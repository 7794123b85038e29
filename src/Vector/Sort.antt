-- ===== src/Vector/Sort.antt =====
-- src/nft_vector.c, vector_sort: a shell sort, of which the last pass is an insertion sort.
pub mod Same
pub mod Strides
pub mod Insertion
pub mod Order
use nifty.Base.{
  ℕ, zero, suc, ◌+◌, ◌-◌, ◌*◌, ◌/◌, Bool, true, false, ◌&&◌, List, ltb, leb, ◌==◌, if◌then◌else◌,
  get_or, set,
}
use nifty.Vector.{Vector, Sign, below, same, above}

abbrev pub is_above : Sign → Bool
is_above above = true
is_above _ = false

-- The first loop: the strides grow until one is beyond the length, for which as many rounds as the
-- length are enough.
pub first_stride : ℕ → ℕ → ℕ → ℕ
first_stride zero len h = h
first_stride (suc n) len h =
    let rest = first_stride n len (3 * h + 1) in if leb h len then rest else h

module _ (cmp : ℕ → ℕ → Sign) where
  -- The loop that moves the items above `t` up by a stride, with `n` rounds to go: the array, and
  -- where `j` ends.
  pub shift_loop : ℕ → List ℕ → ℕ → ℕ → ℕ → List ℕ × ℕ
  shift_loop zero vec h t j = (vec, j)
  shift_loop (suc n) vec h t j =
      let prev = get_or vec (j - h) 0 in
      let rest = shift_loop n (set vec j prev) h t (j - h) in
      if leb h j && is_above (cmp prev t) then rest else (vec, j)

  -- The body of the loop on `i`.
  pub sort_item : List ℕ → ℕ → ℕ → List ℕ
  unfolding shift_loop
  sort_item vec h i =
      let t = get_or vec i 0 in
      let (vec', j) = shift_loop i vec h t i in if j == i then vec' else set vec' j t

  -- The loop on `i`, with `n` items to go.
  pub sort_pass : ℕ → List ℕ → ℕ → ℕ → List ℕ
  sort_pass zero vec h i = vec
  sort_pass (suc n) vec h i = sort_pass n (sort_item vec h i) h (i + 1)

  -- The loop on `h`; as many rounds as the first stride are enough.
  pub sort_loop : ℕ → List ℕ → ℕ → ℕ → List ℕ
  sort_loop zero vec len h = vec
  sort_loop (suc n) vec len h =
      let h' = h / 3 in
      let vec' = sort_pass (len - h') vec h' h' in
      let rest = sort_loop n vec' len h' in if ltb 1 h' then rest else vec'

  pub vector_sort : Vector → Vector
  unfolding sort_loop first_stride
  vector_sort v = let h = first_stride v.len v.len 1 in record v { vec = sort_loop h v.vec v.len h }
