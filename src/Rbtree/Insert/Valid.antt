-- ===== src/Rbtree/Insert/Valid.antt =====
-- rbtree_insert keeps a valid tree valid, and adds the entry at its place.
use nifty.Base.{
  ℕ, ◌+◌, ◌<◌, ◌≡◌, ◌≢◌, inl, inr, refl, ap, ap₂, true, false, List, [], ◌∷◌, ltb, ◌==◌, arith,
  length, Bool-cases,
}
use nifty.Rbtree.{
  Rbtree, Compare, Nodes, Side, left, set_red, insert_fixup, set_node, set_child, root_of,
  attach_leaf, insert_node, insert_in_room, place_loop,
}
use nifty.Rbtree.Shape.{
  Tree, leaf, node, none, rim, top, order, occurs, occurs-around, one_if, one_if_self, one_if_eq,
  IsTree,
}
use nifty.Rbtree.Valid.{IsValid, in_use, length_places, counted-AreApart}
use nifty.Rbtree.Place.{insert_place, occurs-insert_place, goes_before, place_loop_lem, IsPlaced}
use nifty.Rbtree.Fixup.Loop.{IsRedBlack}
use nifty.Rbtree.Insert.Attach.{new_leaf, IsInserted, fixup-IsInserted}
use nifty.Rbtree.Insert.Sorted.{
  Entry, entries_at, IsOrder, IsSorted, insert_entry, IsSorted-IsMonotone, entries_at-insert_place,
}

nonempty : (nodes : Nodes) (p : ℕ) (t : Tree) → IsTree nodes p t → 0 < length (order t) → 0 < top t
nonempty nodes p leaf h l = absurd (omega arith)
nonempty nodes p (node c l i r) h s = h.0

module _ (cmp : Compare) (nodes : Nodes) (key value n : ℕ) (xs : List ℕ)
    (held : IsRedBlack xs nodes) (counted : (j : ℕ) → occurs j xs ≡ in_use n j)
    (ordered : IsOrder cmp) (sorted : IsSorted cmp (entries_at nodes xs)) where
  abbrev ys : List ℕ
  ys = insert_place (goes_before cmp nodes key value) n xs

  ys-counted : 0 < n → (j : ℕ) → occurs j ys ≡ in_use (n + 1) j
  unfolding one_if
  ys-counted pos j =
      ground (arith, occurs-insert_place (goes_before cmp nodes key value) j n xs, counted j)

  fresh : occurs n xs ≡ 0
  fresh = ground (arith, counted n)

  top_pos : 1 < n → 0 < top held.tree
  top_pos h =
      nonempty nodes 0 held.tree held.links
        (omega (arith, length_places n xs counted, ap (length {A = ℕ}) held.places))

  placed :
      1 < n → IsPlaced cmp nodes key value n ys (place_loop cmp n nodes key value (top held.tree))
  placed h =
      let monotone = IsSorted-IsMonotone cmp ordered nodes key value xs sorted in
      let size = length_places n xs counted in
      place_loop_lem cmp nodes key value n n ys none held.black held.tree held.links held.root
        held.balanced tt (rw held.places monotone)
        (omega (arith, size, ap (length {A = ℕ}) held.places))
        (ap (insert_place (goes_before cmp nodes key value) n) held.places) (top_pos h)

  new_place : (r : ℕ × Side) → 0 < n → IsPlaced cmp nodes key value n ys r → (n ≢ r.0) × (0 < n)
  unfolding occurs
  new_place r pos o = (
    λ e. omega (
      arith,
      occurs-insert_place (goes_before cmp nodes key value) n n xs,
      occurs-around n (rim r.1 o.colour r.0 o.sibling o.rest) (n ∷ []),
      ap (occurs n) o.places,
      one_if_eq n r.0 e,
      fresh,
      one_if_self n,
    ),
    pos,
  )

  -- What the insertion leaves in the array.
  pub node-IsInserted :
      (r : ℕ × Side)
      → r ≡ place_loop cmp n nodes key value (top held.tree)
      → (h : 1 < n)
      → IsInserted nodes key value n ys (
          insert_fixup
            (n + 1)
            (set_red (set_child (set_node nodes n (new_leaf key value r.0 false)) r.0 r.1 n) n true)
            n)
  node-IsInserted r e h =
      let o : IsPlaced cmp nodes key value n ys r = rw e (placed h) in
      let size = length_places (n + 1) ys (ys-counted (omega arith)) in
      fixup-IsInserted cmp nodes key value n ys r
        (counted-AreApart (n + 1) ys (ys-counted (omega arith))) held.nil o
        (new_place r (omega arith) o) (n + 1) (omega (arith, size))

-- The empty tree gets a root.
abbrev rooted : Nodes → ℕ → ℕ → Nodes
rooted nodes key value = set_child (set_node nodes 1 (new_leaf key value 0 false)) 0 left 1

rooted-IsInserted :
    (nodes : Nodes) (key value : ℕ)
    → (nodes 0).red ≡ false
    → IsInserted nodes key value 1 (1 ∷ []) (rooted nodes key value)
rooted-IsInserted nodes key value nil = record {
  held = record {
    tree = node false leaf 1 leaf;
    black = 1;
    links = (omega arith, record { parent = refl; red = refl; near = refl; far = refl }, tt, tt);
    root = refl;
    balanced = (refl, refl);
    nil = nil;
    places = refl;
  };
  new = (refl, refl);
  others = λ j e. ground arith;
}

pub no_places : (xs : List ℕ) → length xs ≡ 0 → xs ≡ []
no_places [] e = refl
no_places (x ∷ xs) e = absurd (omega arith)

-- The tree after a successful insertion.
pub record IsExtended (cmp : Compare) (t : Rbtree) (xs : List ℕ) (e : Entry) (t' : Rbtree)
    : Type 0 where
  pub places : List ℕ
  pub valid : IsValid t' places
  pub entries : entries_at t'.nodes places ≡ insert_entry cmp e (entries_at t.nodes xs)

insert_node_lem :
    (cmp : Compare) (t : Rbtree) (key value : ℕ) (xs : List ℕ)
    → IsOrder cmp
    → IsValid t xs
    → IsSorted cmp (entries_at t.nodes xs)
    → t.next_free < t.num_nodes
    → 1 < t.next_free
    → IsExtended cmp t xs (key, value) (insert_node cmp t key value)
unfolding insert_node attach_leaf
insert_node_lem cmp t key value xs o v s room h =
    let held = v.held (omega arith) in
    let r = place_loop cmp t.next_free t.nodes key value (root_of t.nodes) in
    let i =
      node-IsInserted cmp t.nodes key value t.next_free xs held v.counted o s r
        (ap (place_loop cmp t.next_free t.nodes key value) held.root) h in
    record {
      places = insert_place (goes_before cmp t.nodes key value) t.next_free xs;
      valid = record {
        positive = omega arith;
        fits = inl (omega arith);
        held = λ _. i.held;
        counted = ys-counted cmp t.nodes key value t.next_free xs held v.counted o s v.positive;
        walk = omega (arith, v.walk);
      };
      entries =
          entries_at-insert_place cmp t.nodes (insert_node cmp t key value).nodes key value
            t.next_free xs (ap₂ (λ (a b : ℕ). (a, b)) i.new.0 i.new.1) i.others
            (fresh cmp t.nodes key value t.next_free xs held v.counted o s);
    }

one_place : (j : ℕ) → occurs j (1 ∷ []) ≡ in_use 2 j
unfolding occurs one_if
one_place j = ground arith

first_lem :
    (cmp : Compare) (t : Rbtree) (key value : ℕ) (xs : List ℕ)
    → IsValid t xs
    → t.next_free < t.num_nodes
    → t.next_free ≡ 1
    → IsExtended cmp t xs (key, value) (attach_leaf t 0 key value left).1
unfolding attach_leaf insert_entry
first_lem cmp t key value xs v room one =
    let none_yet = no_places xs (omega (arith, length_places t.next_free xs v.counted)) in
    let i = rooted-IsInserted t.nodes key value (v.held (omega arith)).nil in
    rw one (record {
      places = 1 ∷ [];
      valid = record {
        positive = omega arith;
        fits = inl (omega arith);
        held = λ _. i.held;
        counted = one_place;
        walk = omega (arith, v.walk);
      };
      entries = rw none_yet refl;
    })

pub insert_in_room_lem :
    (cmp : Compare) (t : Rbtree) (key value : ℕ) (xs : List ℕ)
    → IsOrder cmp
    → IsValid t xs
    → IsSorted cmp (entries_at t.nodes xs)
    → t.next_free < t.num_nodes
    → (insert_in_room cmp t key value).0 ≡ true
      × IsExtended cmp t xs (key, value) (insert_in_room cmp t key value).1
unfolding insert_in_room
insert_in_room_lem cmp t key value xs o v s room =
    let fits : ltb t.next_free t.num_nodes ≡ true = ground arith in
    rw fits (
      refl,
      elim (Bool-cases (t.next_free == 1)) [
        | inl e ↦ rw e (first_lem cmp t key value xs v room (ground arith))
        | inr e ↦ rw e (insert_node_lem cmp t key value xs o v s room (ground (arith, v.positive)))
      ],
    )
