-- ===== src/Core/Lookup.antt =====
-- A handle looked up as one of a class: the object if it is of the class, and otherwise NULL, and
-- no reference is kept.
use nifty.Base.{ℕ, ◌+◌, ◌≡◌, ◌≢◌, ◌⊎◌, inl, inr, refl, false, some, ◌==◌, arith, ap}
use nifty.Handle.{handle_lookup, handle_discard}
use nifty.Handle.Table.{IsValid, find}
use nifty.Handle.Refs.{found, positive, Counted, found-handle_lookup, handle_discard_lem}
use nifty.Core.{Class, Objects, nft_core_class, core_lookup, core_discard, class_lookup}
use nifty.Core.Cast.{IsA, cast-IsA, core_cast_lem}

module _ (s : Objects) (h o c : ℕ) (v : IsValid s.map) (e : find s.map h ≡ some (o, c))
    (core : IsA s o nft_core_class) where
  some_object : (o ≢ 0) × (c ≢ 0)
  some_object = let p = positive s.map h o c v (found s.map h o c e) in (p.1, p.2)

  -- The objects once the handle is looked up.
  abbrev held : Objects
  held = record s { map = (handle_lookup s.map h).1 }

  looked_up : ((handle_lookup s.map h).0 ≡ o) × Counted s.map h o (c + 1) held.map
  looked_up = found-handle_lookup s.map h o c v e

  core_lookup_eq : core_lookup s h ≡ (o, held)
  unfolding core_lookup
  core_lookup_eq = ap (λ (p : ℕ). (p, held)) looked_up.0

  -- The reference is given back.
  given_back : Counted s.map h o c (core_discard held o).1.map
  unfolding core_discard
  given_back =
      let l = looked_up.1 in
      let is_o = cast-IsA held o nft_core_class some_object.0 core in
      let again : find held.map h ≡ some (o, c + 1) = ground (arith, l.find h) in
      let d = handle_discard_lem held.map h o (c + 1) l.valid again in
      let some' : (o == 0) ≡ false = ground (arith, some_object.0) in
      let kept : (handle_discard held.map o).1 ≡ false = ground (arith, d.1, some_object.1) in
      rw (is_o, some', kept)
        (record {
          valid = d.2.valid;
          find = λ k. ground (arith, d.2.find k, l.find k, some_object.1);
          handle = d.2.handle;
        })

  -- In a valid table, looking up a handle that leads to an object of the base class as one of a
  -- class returns the object and counts a reference, if the object's class begins with the
  -- required one. If it does not, it returns NULL and the references are as they were.
  pub class_lookup_lem :
      (class : Class)
      → (IsA s o class
          × ((class_lookup class s h).0 ≡ o)
          × Counted s.map h o (c + 1) (class_lookup class s h).1.map)
        ⊎ ((¬ IsA s o class)
            × ((class_lookup class s h).0 ≡ 0)
            × Counted s.map h o c (class_lookup class s h).1.map)
  unfolding class_lookup
  class_lookup_lem class =
      let some' : (o == 0) ≡ false = ground (arith, some_object.0) in
      elim (core_cast_lem held o class some_object.0) [
        | inl (cast, a) ↦
            inl (a, rw (core_lookup_eq, cast) refl, rw (core_lookup_eq, cast, some') looked_up.1)
        | inr (cast, a) ↦
            inr (a, rw (core_lookup_eq, cast) refl, rw (core_lookup_eq, cast, some') given_back)
      ]
