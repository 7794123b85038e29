-- ===== src/Handle/Tests.antt =====
-- The theorems on handles at concrete tables.
use nifty.Base.{
  zero, suc, ℕ, ◌<◌, ◌≡◌, refl, Bool, true, false, none, [], ◌∷◌, arith, ◌==◌, if◌then◌else◌,
}
use nifty.Handle.{HandleMap, free_slot, slot_at, handle_alloc}
use nifty.Handle.Table.{is_live, IsHome, IsValid, IsNew, find}
use nifty.Handle.Alloc.{Result, handle_alloc_lem}
use nifty.Handle.Refs.{discard_times, discard_times_lem}
use nifty.Handle.Full.{IsFull, handle_alloc-IsFull}

-- malloc has room for any table.
abbrev always : ℕ → Bool
always n = true

-- A table of two slots, that may grow to four. The object 70 has the handle 5 and two references.
abbrev one_object : HandleMap
one_object = record {
  slots = free_slot ∷ record { refcount = 2; object = 70 } ∷ [];
  size = 2;
  max = 4;
  next_handle = 5;
  handle = λ o. if o == 70 then 5 else 0;
}

one_object-IsHome : (i : ℕ) → i < 2 → is_live (slot_at one_object i) ≡ true → IsHome one_object i
one_object-IsHome zero lt e = ground (arith, e)
one_object-IsHome (suc zero) lt e = record {
  object = omega arith;
  handle = omega arith;
  home = refl;
}
one_object-IsHome (suc (suc i)) lt e = absurd (omega arith)

one_object-IsValid : IsValid one_object
one_object-IsValid = record { stored = refl; large = omega arith; homes = one_object-IsHome }

one_object-IsNew : IsNew one_object 80
one_object-IsNew zero lt e = omega arith
one_object-IsNew (suc zero) lt e = omega arith
one_object-IsNew (suc (suc i)) lt e = absurd (omega arith)

handle_alloc_test : (handle_alloc always one_object 80).0 ≡ 6
unfolding handle_alloc
handle_alloc_test = refl

handle_alloc_example : Result one_object 80 (handle_alloc always one_object 80)
handle_alloc_example =
    handle_alloc_lem always one_object 80 one_object-IsValid (omega arith) one_object-IsNew

discard_times_example :
    ((discard_times 2 one_object 70).0 ≡ false ∷ true ∷ [])
    × (find (discard_times 2 one_object 70).1 5 ≡ none)
discard_times_example = discard_times_lem 1 one_object 5 70 one_object-IsValid refl

-- Two slots, the largest size, and both taken.
abbrev two_objects : HandleMap
two_objects = record {
  slots = record { refcount = 1; object = 90 } ∷ record { refcount = 2; object = 70 } ∷ [];
  size = 2;
  max = 2;
  next_handle = 5;
  handle = λ o. if o == 70 then 5 else if o == 90 then 4 else 0;
}

two_objects-IsHome : (i : ℕ) → i < 2 → is_live (slot_at two_objects i) ≡ true → IsHome two_objects i
two_objects-IsHome zero lt e = record { object = omega arith; handle = omega arith; home = refl }
two_objects-IsHome (suc zero) lt e = record {
  object = omega arith;
  handle = omega arith;
  home = refl;
}
two_objects-IsHome (suc (suc i)) lt e = absurd (omega arith)

two_objects-IsNew : IsNew two_objects 80
two_objects-IsNew zero lt e = omega arith
two_objects-IsNew (suc zero) lt e = omega arith
two_objects-IsNew (suc (suc i)) lt e = absurd (omega arith)

handle_alloc-IsFull_example :
    IsFull (handle_alloc always two_objects 80).1
    × ((handle_alloc always two_objects 80).1.size ≡ 2)
unfolding handle_alloc
handle_alloc-IsFull_example =
    handle_alloc-IsFull always two_objects 80 0 (λ s. refl)
      (record { stored = refl; large = omega arith; homes = two_objects-IsHome }) (omega arith)
      two_objects-IsNew refl (omega arith) refl
