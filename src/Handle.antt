-- ===== src/Handle.antt =====
-- src/nft_handle.c, the implementation with a mutex: the table that leads from handles to objects
-- and counts the references. Every function holds the mutex from end to end, so they are functions
-- of the table and of the objects' fields `handle` and `class`.
pub mod Table
pub mod Enlarge
pub mod Alloc
pub mod Refs
pub mod Full
mod Tests
use nifty.Base.{
  ℕ, zero, suc, ◌+◌, ◌-◌, ◌*◌, ◌/◌, ◌%◌, Bool, true, false, ◌&&◌, not, Option, none, some, List, [],
  ◌∷◌, ltb, leb, ◌==◌, if◌then◌else◌, get_or, set, replicate, length, Status, ok, einval,
}

-- `nft_handle_map`: an object is its address, and zero is NULL.
pub record Slot : Type 0 where
  pub refcount : ℕ
  pub object : ℕ

abbrev pub free_slot : Slot
free_slot = record { refcount = 0; object = 0 }

-- HandleMap, HandleMapSize, HandleMapMax, NextHandle, and the field `handle` of every object.
pub record HandleMap : Type 0 where
  pub slots : List Slot
  pub size : ℕ
  pub max : ℕ
  pub next_handle : ℕ
  pub handle : ℕ → ℕ

-- handle_hash: `handle & (modulo - 1)` is the remainder, since `modulo` is a power of two.
abbrev pub handle_hash : ℕ → ℕ → ℕ
handle_hash handle modulo = handle % modulo

-- HandleMap[index]
abbrev pub slot_at : HandleMap → ℕ → Slot
slot_at m index = get_or m.slots index free_slot

abbrev pub set_slot : HandleMap → ℕ → Slot → HandleMap
set_slot m index s = record m { slots = set m.slots index s }

-- handle_once: the smaller of the two sizes; `none` where malloc failed.
pub handle_once : Bool → ℕ → ℕ → Option HandleMap
handle_once mem size max =
    let size' = if ltb size max then size else max in
    if mem
    then some (record {
      slots = replicate size' free_slot;
      size = size';
      max = max;
      next_handle = 0;
      handle = λ o. 0;
    })
    else none

-- The loop of handle_map_enlarge, for `n` slots from index `i` on.
pub copy_slots : ℕ → ℕ → HandleMap → List Slot → List Slot
copy_slots zero i m newmap = newmap
copy_slots (suc n) i m newmap =
    let s = slot_at m i in
    let handle = m.handle s.object in
    let copied =
      set newmap (handle_hash handle (2 * m.size)) (slot_at m (handle_hash handle m.size)) in
    copy_slots n (suc i) m (if ltb 0 s.refcount && not (s.object == 0) then copied else newmap)

-- handle_map_enlarge; `mem` tells whether malloc has room for a table of a size.
pub handle_map_enlarge : (ℕ → Bool) → HandleMap → Bool × HandleMap
unfolding copy_slots
handle_map_enlarge mem m =
    let newsize = 2 * m.size in
    if ltb m.max newsize
    then (false, m)
    else if mem newsize
    then (
      true,
      record m { slots = copy_slots m.size 0 m (replicate newsize free_slot); size = newsize },
    )
    else (false, m)

-- The handle after `next`, a `ptrdiff_t` that goes back to one where it would be negative.
abbrev pub handle_after : ℕ → ℕ
handle_after next = if leb 0x7fff_ffff_ffff_ffff next then 1 else next + 1

-- nft_handle_alloc, the object gets a handle and the slot.
pub occupy : HandleMap → ℕ → ℕ → HandleMap
occupy m object handle = record m {
  slots = set m.slots (handle_hash handle m.size) (record { refcount = 1; object = object });
  next_handle = handle;
  handle = λ o. if o == object then handle else m.handle o;
}

-- nft_handle_alloc, the inner loop with `n` rounds to go; zero is no handle.
pub scan : ℕ → HandleMap → ℕ → ℕ × HandleMap
unfolding occupy
scan zero m object = (0, m)
scan (suc n) m object =
    let handle = handle_after m.next_handle in
    let rest = scan n (record m { next_handle = handle }) object in
    if (slot_at m (handle_hash handle m.size)).refcount == 0
    then (handle, occupy m object handle)
    else rest

abbrev pub scan_limit : HandleMap → ℕ
scan_limit m = if ltb m.size m.max then m.size / 2 else m.size

-- nft_handle_alloc, the outer loop with at most `n` enlargements.
pub alloc_loop : ℕ → (ℕ → Bool) → HandleMap → ℕ → ℕ × HandleMap
unfolding scan handle_map_enlarge
alloc_loop zero mem m object = scan (scan_limit m) m object
alloc_loop (suc n) mem m object =
    let (handle, m') = scan (scan_limit m) m object in
    let (enlarged, m'') = handle_map_enlarge mem m' in
    let again = alloc_loop n mem m'' object in
    if not (handle == 0) then (handle, m') else if enlarged then again else (0, m'')

-- nft_handle_alloc; the size at least doubles in each round, so `max` rounds are enough.
pub handle_alloc : (ℕ → Bool) → HandleMap → ℕ → ℕ × HandleMap
unfolding alloc_loop
handle_alloc mem m object = alloc_loop m.max mem m object

-- nft_handle_lookup: the object, or NULL.
pub handle_lookup : HandleMap → ℕ → ℕ × HandleMap
handle_lookup m handle =
    let index = handle_hash handle m.size in
    let s = slot_at m index in
    if handle == 0
    then (0, m)
    else if ltb 0 s.refcount && (handle == m.handle s.object)
    then (s.object, set_slot m index (record s { refcount = s.refcount + 1 }))
    else (0, m)

-- nft_handle_discard: the code, whether the object is destroyed, and the table.
pub handle_discard : HandleMap → ℕ → Status × Bool × HandleMap
handle_discard m object =
    let index = handle_hash (m.handle object) m.size in
    let s = slot_at m index in
    if ltb 0 s.refcount && (s.object == object)
    then (if s.refcount == 1
        then (ok, true, set_slot m index free_slot)
        else (ok, false, set_slot m index (record s { refcount = s.refcount - 1 })))
    else (einval, false, m)

-- nft_handle_apply, with a function that changes what `argument` points to: the count, and that.
pub apply_slots {ℓ} : {A : Type ℓ} → (ℕ → A → A) → List Slot → ℕ × A → ℕ × A
apply_slots function [] r = r
apply_slots function (s ∷ ss) (n, argument) =
    apply_slots function ss
      (if ltb 0 s.refcount then (n + 1, function s.object argument) else (n, argument))

pub handle_apply {ℓ} : {A : Type ℓ} → (ℕ → A → A) → HandleMap → A → ℕ × A
unfolding apply_slots
handle_apply function m argument = apply_slots function m.slots (0, argument)
