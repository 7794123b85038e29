-- ===== src/Core.antt =====
-- src/nft_core.c, and the functions that the macros of include/nft_core.h define for each class: an
-- object has a class, a string that begins with the names of its base classes, and a handle.
pub mod Cast
pub mod Lookup
pub mod Create
mod Tests
use nifty.Base.{
  ℕ, ◌+◌, ◌*◌, Bool, true, false, not, ◌&&◌, Option, none, some, List, [], ◌∷◌, ltb, ◌==◌,
  if◌then◌else◌, set, take, ◌++◌, cells, Alloc, Status, einval,
}
use nifty.Handle.{HandleMap, handle_alloc, handle_lookup, handle_discard, handle_apply}

-- A string that is not null, without the zero at its end.
abbrev pub Class : Type 0
Class = List ℕ

-- "nft_core"
abbrev pub nft_core_class : Class
nft_core_class = 110 ∷ 102 ∷ 116 ∷ 95 ∷ 99 ∷ 111 ∷ 114 ∷ 101 ∷ []

-- The table of handles, and the field `class` of each object; `none` is a null pointer.
pub record Objects : Type 0 where
  pub map : HandleMap
  pub class : ℕ → Option Class

-- The loop of nft_core_cast.
pub is_prefix : Class → Class → Bool
is_prefix [] inquire = true
is_prefix (c ∷ require) [] = false
is_prefix (c ∷ require) (d ∷ inquire) =
    let rest = is_prefix require inquire in if c == d then rest else false

-- nft_core_cast: the object, or NULL. Where the two pointers are the same, so are the strings.
pub core_cast : Objects → ℕ → Option Class → ℕ
unfolding is_prefix
core_cast s object none = 0
core_cast s object (some require) = if object == 0 then 0 else elim (s.class object) [
  | none ↦ 0
  | some inquire ↦ if is_prefix require inquire then object else 0
]

-- nft_core_destroy, on an object that is not null: a freed object's class is null.
pub core_destroy : Objects → ℕ → Objects
core_destroy s p =
    if core_cast s p (some nft_core_class) == 0
    then s
    else record s { class = λ o. if o == p then none else s.class o }

-- nft_core_create: calloc returns the address of an object, or NULL; the object gets a handle, or
-- is freed.
pub core_create : ℕ → (ℕ → Bool) → Objects → Class → ℕ × Objects
core_create calloc mem s class =
    let fresh = record s.map { handle = λ o. if o == calloc then 0 else s.map.handle o } in
    let (handle, map) = handle_alloc mem fresh calloc in
    if calloc == 0
    then (0, s)
    else if handle == 0
    then (0, record s { map = map })
    else (calloc, record { map = map; class = λ o. if o == calloc then some class else s.class o })

-- nft_core_lookup
pub core_lookup : Objects → ℕ → ℕ × Objects
core_lookup s h = let (object, map) = handle_lookup s.map h in (object, record s { map = map })

-- nft_core_discard, of an object whose destructor is nft_core_destroy.
pub core_discard : Objects → ℕ → Status × Objects
core_discard s p =
    let object = core_cast s p (some nft_core_class) in
    let (result, destroyed, map) = handle_discard s.map object in
    let s' = record s { map = map } in
    if object == 0 then (einval, s) else (result, if destroyed then core_destroy s' object else s')

-- NFT_DEFINE_LOOKUP: the object behind the handle if it is of the class, or NULL.
pub class_lookup : Class → Objects → ℕ → ℕ × Objects
class_lookup class s h =
    let (c, s') = core_lookup s h in
    let sc = core_cast s' c (some class) in
    (sc, if not (c == 0) && (sc == 0) then (core_discard s' c).1 else s')

-- NFT_DEFINE_HANDLE
pub class_handle : Objects → ℕ → ℕ
class_handle s sc =
    let c = core_cast s sc (some nft_core_class) in if c == 0 then 0 else s.map.handle c

-- `struct handle_array`
pub record HandleArray : Type 0 where
  pub next : ℕ
  pub size : ℕ
  pub array : List ℕ

-- gather_apply, the array of twice the size and one more; `mem` tells what realloc returns for a
-- number of cells.
pub grow_array : (ℕ → Alloc) → HandleArray → HandleArray
grow_array mem hap = elim (mem (2 * hap.size + 1)) [
  | none ↦ hap
  | some junk ↦ record hap { array = hap.array ++ cells junk (hap.size); size = 2 * hap.size }
]

pub gather_apply : (ℕ → Alloc) → Objects → Class → ℕ → HandleArray → HandleArray
unfolding core_cast grow_array
gather_apply mem s class object hap =
    let hap' = if hap.next == hap.size then grow_array mem hap else hap in
    if core_cast s object (some class) == 0
    then hap
    else if ltb hap'.next hap'.size
    then record hap' {
      array = set hap'.array hap'.next (s.map.handle object);
      next = hap'.next + 1;
    }
    else hap'

-- nft_core_gather: the array of handles, with a null handle at its end, and their number. `junk` is
-- the array that malloc returns.
pub core_gather : (ℕ → ℕ) → (ℕ → Alloc) → Objects → Class → List ℕ × ℕ
unfolding gather_apply
core_gather junk mem s class =
    let ha =
      (handle_apply (gather_apply mem s class) s.map
        (record { next = 0; size = 126; array = cells junk 127 })).1 in
    (set ha.array ha.next 0, ha.next)
