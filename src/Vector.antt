-- ===== src/Vector.antt =====
-- src/nft_vector.c: the array of items, at its end as a stack, and the binary search and the
-- insertion of a sorted vector. An item is a pointer, and zero is NULL.
pub mod Stack
pub mod Find
pub mod Insert
pub mod Range
pub mod Delete
pub mod Sort
pub mod Sets
pub mod Map
mod Tests
use nifty.Base.{
  ℕ, zero, suc, ◌+◌, ◌-◌, ◌*◌, ◌/◌, Bool, true, false, List, [], ◌∷◌, ◌++◌, ltb, ◌==◌,
  if◌then◌else◌, get_or, set, blit, cells, Alloc, Option, none, some, Status, is_ok, ok, enomem,
  enoent, esrch, leb, ◌&&◌,
}

-- `nft_vector`, but for the comparator.
pub record Vector : Type 0 where
  pub cap : ℕ
  pub len : ℕ
  pub vec : List ℕ

-- v->vec[i]
abbrev pub at : Vector → ℕ → ℕ
at v i = get_or v.vec i 0

-- vector_append and vector_insert, the test for room at their start: the code, and the vector.
pub reserve : Alloc → Vector → Status × Vector
reserve mem v =
    if v.len == v.cap
    then elim mem [
      | none ↦ (enomem, v)
      | some junk ↦ (ok, record v { cap = 2 * v.cap; vec = v.vec ++ cells junk v.cap })
    ]
    else (ok, v)

-- vector_append, once there is room: the item, and a null behind it.
pub put_last : Vector → ℕ → Vector
put_last v item = record v { vec = set (set v.vec v.len item) (v.len + 1) 0; len = v.len + 1 }

pub vector_append : Alloc → Vector → ℕ → Status × Vector
unfolding reserve put_last
vector_append mem v item =
    let (code, v') = reserve mem v in if is_ok code then (ok, put_last v' item) else (code, v')

pub vector_push : Alloc → Vector → ℕ → Status × Vector
unfolding vector_append
vector_push mem v item = vector_append mem v item

-- vector_pop, with a place for the item: the code, the item, and the vector.
pub vector_pop : Vector → Status × ℕ × Vector
vector_pop v =
    if v.len == 0 then (enoent, 0, v) else (ok, at v (v.len - 1), record v { len = v.len - 1 })

-- The sign of what the comparator returns.
pub data Sign : Type 0 where
  below same above : Sign

abbrev pub is_same : Sign → Bool
is_same same = true
is_same _ = false

-- vector_insert opens a slot at `x`: the `n` items from there on move up, the last one first.
pub open_slot : ℕ → ℕ → List ℕ → List ℕ
open_slot zero x vec = vec
open_slot (suc n) x vec = open_slot n x (set vec (x + suc n) (get_or vec (x + n) 0))

-- vector_delete, the items from `x` up to `y`: those behind them move down, with a null behind.
pub cut_range : Vector → ℕ → ℕ → Vector
cut_range v x y =
    let l = y - x in
    record v { vec = set (blit v.vec x v.vec y (v.len - y)) (v.len - l) 0; len = v.len - l }

module _ (cmp : ℕ → ℕ → Sign) where
  -- The loop of vector_find with `n` rounds to go: where it ends, `pos` and the last comparison.
  -- `last` is one more than in the source, where it may be -1.
  pub find_loop : ℕ → Vector → ℕ → ℕ → ℕ → ℕ → Sign → ℕ × Sign
  find_loop zero v item first last pos c = (pos, c)
  find_loop (suc n) v item first last pos c =
      let mid = (first + last - 1) / 2 in
      let r = cmp item (at v mid) in
      let lower = find_loop n v item first mid mid below in
      let upper = find_loop n v item (mid + 1) last mid above in
      if ltb first last
      then (elim r [ below ↦ lower | same ↦ (mid, same) | above ↦ upper ])
      else (pos, c)

  -- vector_find, of the slice from `x` to `y`; as many rounds as the slice has items are enough.
  pub vector_find : Vector → ℕ → ℕ × ℕ → ℕ × ℕ
  unfolding find_loop
  vector_find v item (x, y) =
      let (pos, c) = find_loop (y - x) v item x y x below in
      elim c [ same ↦ (pos, pos + 1) | above ↦ (pos + 1, pos + 1) | below ↦ (pos, pos) ]

  -- vector_index; `none` is -1.
  pub vector_index : Vector → ℕ → Option ℕ
  unfolding vector_find
  vector_index v item =
      let (x, y) = vector_find v item (0, v.len) in if y - x == 0 then none else some x

  -- vector_insert, once there is room.
  pub insert_at_place : Vector → ℕ → Vector
  unfolding open_slot
  insert_at_place v item =
      let x = (vector_find v item (0, v.len)).0 in
      record v { vec = set (open_slot (v.len + 1 - x) x v.vec) x item; len = v.len + 1 }

  pub vector_insert : Alloc → Vector → ℕ → Status × Vector
  unfolding reserve
  vector_insert mem v item =
      let (code, v') = reserve mem v in
      if is_ok code then (ok, insert_at_place v' item) else (code, v')

  -- vector_search_slice, the two loops, with `n` rounds to go: down from the start of the range, and
  -- up from its end.
  pub down_loop : ℕ → Vector → ℕ → ℕ → ℕ → ℕ
  down_loop zero v item low x = x
  down_loop (suc n) v item low x =
      let rest = down_loop n v item low (x - 1) in
      if ltb low x && is_same (cmp item (at v (x - 1))) then rest else x

  pub up_loop : ℕ → Vector → ℕ → ℕ → ℕ → ℕ
  up_loop zero v item high y = y
  up_loop (suc n) v item high y =
      let rest = up_loop n v item high (y + 1) in
      if ltb y high && is_same (cmp item (at v y)) then rest else y

  -- vector_search_slice; as many rounds as there are items before the range, and in the slice, are
  -- enough.
  pub vector_search_slice : Vector → ℕ → ℕ × ℕ → ℕ × ℕ
  unfolding vector_find down_loop up_loop
  vector_search_slice v item (x, y) =
      let (a, b) = vector_find v item (x, y) in
      if b - a == 0 then (a, b) else (down_loop a v item x a, up_loop y v item y b)

  pub vector_search : Vector → ℕ → ℕ × ℕ
  unfolding vector_search_slice
  vector_search v item = vector_search_slice v item (0, v.len)

  pub vector_delete : Vector → ℕ → Status × Vector
  unfolding cut_range
  vector_delete v item =
      let (x, y) = vector_search v item in
      if ltb 0 (y - x) then (ok, cut_range v x y) else (esrch, v)
