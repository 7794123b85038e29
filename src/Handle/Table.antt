-- ===== src/Handle/Table.antt =====
-- The invariant of the table of handles, and what a handle leads to.
use nifty.Base.{
  ℕ, zero, suc, ◌%◌, ◌<◌, ◌≡◌, ◌≢◌, Bool, true, ◌&&◌, Option, none, some, ltb, ◌==◌, if◌then◌else◌,
  length, get_or, replicate, refl,
}
use nifty.Handle.{Slot, HandleMap, free_slot, slot_at, handle_hash}

abbrev pub is_live : Slot → Bool
is_live s = ltb 0 s.refcount

-- A live slot holds an object with a handle, and stands where the handle's hash says.
pub record IsHome (m : HandleMap) (i : ℕ) : Type 0 where
  pub object : (slot_at m i).object ≢ 0
  pub handle : m.handle (slot_at m i).object ≢ 0
  pub home : m.handle (slot_at m i).object % m.size ≡ i

pub record IsValid (m : HandleMap) : Type 0 where
  pub stored : length m.slots ≡ m.size
  pub large : 0 < m.size
  pub homes : (i : ℕ) → i < m.size → is_live (slot_at m i) ≡ true → IsHome m i

-- What a handle leads to: the object and the number of its references.
abbrev pub find : HandleMap → ℕ → Option (ℕ × ℕ)
find m h =
    let s = slot_at m (handle_hash h m.size) in
    if is_live s && (m.handle s.object == h) then some (s.object, s.refcount) else none

-- The object has no handle.
abbrev pub IsNew : HandleMap → ℕ → Type 0
IsNew m o = (i : ℕ) → i < m.size → is_live (slot_at m i) ≡ true → (slot_at m i).object ≢ o

pub get_or-replicate : (n i : ℕ) → get_or (replicate n free_slot) i free_slot ≡ free_slot
get_or-replicate zero i = refl
get_or-replicate (suc n) zero = refl
get_or-replicate (suc n) (suc i) = get_or-replicate n i
