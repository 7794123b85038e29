-- ===== src/Core/Tests.antt =====
-- The theorems on objects and classes at a concrete table.
use nifty.Base.{
  zero, suc, ℕ, ◌<◌, ◌≡◌, ◌⊎◌, refl, true, none, some, [], ◌∷◌, ◌++◌, arith, ◌==◌, if◌then◌else◌,
}
use nifty.Handle.{free_slot, slot_at}
use nifty.Handle.Table.{is_live, IsHome, IsValid, IsNew}
use nifty.Handle.Refs.{Counted}
use nifty.Core.{Class, Objects, nft_core_class, class_lookup}
use nifty.Core.Cast.{IsA}
use nifty.Core.Lookup.{class_lookup_lem}

-- "nft_core:a"
abbrev class_a : Class
class_a = nft_core_class ++ (58 ∷ 97 ∷ [])

-- A table of two slots with one object, of this class.
abbrev objects : Objects
objects = record {
  map = record {
    slots = free_slot ∷ record { refcount = 1; object = 70 } ∷ [];
    size = 2;
    max = 4;
    next_handle = 5;
    handle = λ o. if o == 70 then 5 else 0;
  };
  class = λ o. if o == 70 then some class_a else none;
}

objects-IsHome : (i : ℕ) → i < 2 → is_live (slot_at objects.map i) ≡ true → IsHome objects.map i
objects-IsHome zero lt e = ground (arith, e)
objects-IsHome (suc zero) lt e = record { object = omega arith; handle = omega arith; home = refl }
objects-IsHome (suc (suc i)) lt e = absurd (omega arith)

objects-IsValid : IsValid objects.map
objects-IsValid = record { stored = refl; large = omega arith; homes = objects-IsHome }

objects-IsNew : IsNew objects.map 80
objects-IsNew zero lt e = omega arith
objects-IsNew (suc zero) lt e = omega arith
objects-IsNew (suc (suc i)) lt e = absurd (omega arith)

class_lookup_example :
    (IsA objects 70 class_a
      × ((class_lookup class_a objects 5).0 ≡ 70)
      × Counted objects.map 5 70 2 (class_lookup class_a objects 5).1.map)
    ⊎ ((¬ IsA objects 70 class_a)
        × ((class_lookup class_a objects 5).0 ≡ 0)
        × Counted objects.map 5 70 1 (class_lookup class_a objects 5).1.map)
class_lookup_example =
    class_lookup_lem objects 5 70 1 objects-IsValid refl (58 ∷ 97 ∷ [], refl) class_a
