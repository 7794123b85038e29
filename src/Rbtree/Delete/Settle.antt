-- ===== src/Rbtree/Delete/Settle.antt =====
-- delete_node, its end: once a place is free, move_last leaves a valid tree with the same entries.
use nifty.Base.{
  ℕ, zero, suc, ◌+◌, ◌-◌, ◌≤◌, ◌<◌, ◌≡◌, ◌≢◌, ◌∙◌, inl, inr, refl, sym, ap, ap₂, Bool, true, false,
  List, ◌∷◌, ◌++◌, ◌==◌, if◌then◌else◌, arith, Bool-cases,
}
use nifty.Rbtree.{Rbtree, left, right, Nodes}
use nifty.Rbtree.Shape.{
  Tree, node, top, order, Rim, none, rim, above, around, side, occurs, occurs-around, occurs-order,
  one_if, one_if_self, one_if_ne, in_tree, in_rim,
}
use nifty.Rbtree.Rotate.{IsSame}
use nifty.Rbtree.Colour.{IsBalanced, is_red_above}
use nifty.Rbtree.Fixup.{AreApart, places_count}
use nifty.Rbtree.Fixup.Loop.{IsRedBlack}
use nifty.Rbtree.Valid.{IsValid, in_use}
use nifty.Rbtree.Insert.Sorted.{Entry, entry, entries_at, entries_at_same}
use nifty.Rbtree.Delete.{move_last}
use nifty.Rbtree.Delete.Locate.{IsLocated, locate, IsRedBlack-of_focus, entries_at-append}
use nifty.Rbtree.Delete.Last.{after, after-IsAt, move_node_eq}
use nifty.Rbtree.Delete.Writes.{moved_same, moved_entry}

-- A tree of which the node `y` has been taken out, and not yet the place.
pub record IsFreed (t : Rbtree) (xs : List ℕ) (y : ℕ) : Type 0 where
  pub held : IsRedBlack xs t.nodes
  pub counted : (j : ℕ) → occurs j xs + one_if j y ≡ in_use t.next_free j
  pub room : t.next_free ≤ t.num_nodes
  pub walk : t.current < t.next_free
  pub aside : t.current ≢ y

-- A valid tree with these entries.
pub record IsSettled (es : List Entry) (t : Rbtree) : Type 0 where
  pub places : List ℕ
  pub valid : IsValid t places
  pub entries : entries_at t.nodes places ≡ es

pub entry_eq :
    (nodes nodes' : Nodes) (i j : ℕ)
    → IsSame (nodes i) (nodes' j)
    → entry (nodes' j) ≡ entry (nodes i)
entry_eq nodes nodes' i j q = ap₂ (λ (a b : ℕ). (a, b)) q.0 q.1

-- One place has another's entry.
pub entries_between :
    (nodes nodes' : Nodes) (js ks : List ℕ) (k y : ℕ)
    → ((j : ℕ) → 0 < occurs j js → IsSame (nodes j) (nodes' j))
    → ((j : ℕ) → 0 < occurs j ks → IsSame (nodes j) (nodes' j))
    → IsSame (nodes k) (nodes' y)
    → entries_at nodes' (js ++ (y ∷ ks)) ≡ entries_at nodes (js ++ (k ∷ ks))
entries_between nodes nodes' js ks k y f g e =
    entries_at-append nodes' js (y ∷ ks)
    ∙ ap₂ (λ (a b : List Entry). a ++ b) (entries_at_same nodes nodes' js f)
        (ap₂ (λ (a : Entry) (b : List Entry). a ∷ b) (entry_eq nodes nodes' k y e)
          (entries_at_same nodes nodes' ks g))
    ∙ sym (entries_at-append nodes js (k ∷ ks))

-- What surrounds a subtree keeps its entries.
pub entries_around :
    (nodes nodes' : Nodes) (z : Rim) (js ks : List ℕ)
    → ((j : ℕ) → 0 < in_rim j z → IsSame (nodes j) (nodes' j))
    → entries_at nodes' js ≡ entries_at nodes ks
    → entries_at nodes' (around z js) ≡ entries_at nodes (around z ks)
unfolding occurs
entries_around nodes nodes' none js ks s e = e
entries_around nodes nodes' (rim left c i t z) js ks s e =
    entries_around nodes nodes' z (js ++ (i ∷ order t)) (ks ++ (i ∷ order t))
      (λ j h. s j (omega arith))
      (entries_at-append nodes' js (i ∷ order t)
        ∙ ap₂ (λ (a b : List Entry). a ++ b) e
            (entries_at_same nodes nodes' (i ∷ order t) (λ j h. s j (here j h)))
        ∙ sym (entries_at-append nodes ks (i ∷ order t)))
  where
    here : (j : ℕ) → 0 < occurs j (i ∷ order t) → 0 < in_rim j (rim left c i t z)
    here j h = omega (arith, h, occurs-order j t)
entries_around nodes nodes' (rim right c i t z) js ks s e =
    entries_around nodes nodes' z (order t ++ (i ∷ js)) (order t ++ (i ∷ ks))
      (λ j h. s j (omega arith))
      (entries_at-append nodes' (order t) (i ∷ js)
        ∙ ap₂ (λ (a b : List Entry). a ++ b)
            (entries_at_same nodes nodes' (order t)
              (λ j h. s j (omega (arith, h, occurs-order j t))))
            (ap₂ (λ (a : Entry) (b : List Entry). a ∷ b)
              (entry_eq nodes nodes' i i (s i (omega (arith, one_if_self i)))) e)
        ∙ sym (entries_at-append nodes (order t) (i ∷ ks)))

renamed-IsBalanced :
    (p : Bool) (n : ℕ) (c : Bool) (l : Tree) (k y : ℕ) (r : Tree)
    → IsBalanced p n (node c l k r)
    → IsBalanced p n (node c l y r)
renamed-IsBalanced p n true l k y r b = b
renamed-IsBalanced p zero false l k y r b = b
renamed-IsBalanced p (suc n) false l k y r b = b

in_use_last : (n j : ℕ) → 1 < n → in_use n j ≡ in_use (n - 1) j + one_if j (n - 1)
unfolding one_if
in_use_last n j h = ground arith

walk_lt : (n y i : ℕ) → y < n → i < n → n - 1 ≢ y → (if i == n - 1 then y else i) < n - 1
walk_lt n y i h m e = ground arith

-- The last node of the array moves to the free place.
module _ (t : Rbtree) (xs : List ℕ) (y : ℕ) (f : IsFreed t xs y)
    (last : (y == t.next_free - 1) ≡ false) where
  free-AreApart : AreApart xs
  free-AreApart = record {
    once = λ j. ground (arith, f.counted j);
    nil = ground (arith, f.counted 0);
  }

  abbrev k : ℕ
  k = t.next_free - 1

  y_used : (0 < y) × (y < t.next_free)
  y_used = ground (arith, f.counted y, one_if_self y)

  k_out : k ≢ y
  k_out = ground (arith, last)

  k_in : 0 < occurs k xs
  k_in = ground (arith, f.counted k, one_if_ne k y k_out, y_used)

  y_free : occurs y xs ≡ 0
  y_free = ground (arith, f.counted y, one_if_self y)

  in_order : 1 < t.next_free
  in_order = omega (arith, y_used)

  abbrev at : IsLocated xs t.nodes k
  at = locate xs t.nodes k f.held k_in

  abbrev new_places : List ℕ
  new_places = around at.rest (order (node at.colour at.near y at.far))

  abbrev nodes' : Nodes
  nodes' =
      after xs free-AreApart t.nodes at.colour at.near k at.far at.rest at.focus.at y y_used.0
        y_free

  red_black : IsRedBlack new_places nodes'
  red_black =
      IsRedBlack-of_focus new_places nodes' at.rest at.black (node at.colour at.near y at.far)
        (record {
          at =
              after-IsAt xs free-AreApart t.nodes at.colour at.near k at.far at.rest at.focus.at y
                y_used.0 y_free;
          balanced =
              renamed-IsBalanced (is_red_above at.rest) at.black at.colour at.near k y at.far
                at.focus.balanced;
          beyond = at.focus.beyond;
        })

  left_count : (j : ℕ) → occurs j new_places + one_if j k ≡ occurs j xs + one_if j y
  left_count j = omega (
    arith,
    places_count xs at.rest (node at.colour at.near k at.far) j at.focus.at.places,
    occurs-around j at.rest (order (node at.colour at.near y at.far)),
    occurs-order j (node at.colour at.near y at.far),
  )

  not_y : (j : ℕ) → 0 < occurs j xs → j ≢ y
  not_y j h e = omega (arith, y_free, ap (λ (i : ℕ). occurs i xs) e)

  same : (j : ℕ) → 0 < occurs j xs → IsSame (t.nodes j) (nodes' j)
  same j h =
      moved_same t.nodes k y (top at.near) (top at.far) (above at.rest) (side at.rest) j (not_y j h)

  old_count :
      (j : ℕ) → in_tree j at.near + one_if j k + in_tree j at.far + in_rim j at.rest ≡ occurs j xs
  old_count j = places_count xs at.rest (node at.colour at.near k at.far) j at.focus.at.places

  same_entries : entries_at nodes' new_places ≡ entries_at t.nodes xs
  same_entries =
      entries_around t.nodes nodes' at.rest (order at.near ++ (y ∷ order at.far))
        (order at.near ++ (k ∷ order at.far)) (λ j h. same j (omega (arith, old_count j, h)))
        (entries_between t.nodes nodes' (order at.near) (order at.far) k y
          (λ j h. same j (omega (arith, old_count j, h, occurs-order j at.near)))
          (λ j h. same j (omega (arith, old_count j, h, occurs-order j at.far)))
          (moved_entry t.nodes k y (top at.near) (top at.far) (above at.rest) (side at.rest)))
      ∙ ap (entries_at t.nodes) at.focus.at.places

  settled : IsSettled (entries_at t.nodes xs) (move_last t y)
  unfolding move_last
  settled =
      rw
        (
          last,
          move_node_eq xs free-AreApart t.nodes at.colour at.near k at.far at.rest at.focus.at y
              y_used.0 y_free,
        )
        (record {
          places = new_places;
          valid = record {
            positive = omega (arith, in_order);
            fits = inl (omega (arith, f.room));
            held = λ _. red_black;
            counted =
                λ j. omega (arith, left_count j, f.counted j, in_use_last t.next_free j in_order);
            walk = walk_lt t.next_free y t.current y_used.1 f.walk k_out;
          };
          entries = same_entries;
        })

last_gone : (n y j a : ℕ) → 1 < n → y ≡ n - 1 → a + one_if j y ≡ in_use n j → a ≡ in_use (n - 1) j
last_gone n y j a h e c = omega (arith, c, in_use_last n j h, ap (λ (i : ℕ). one_if j i) e)

-- move_last, once a node is out of the tree, leaves a valid tree with the same entries.
pub move_last_lem :
    (t : Rbtree) (xs : List ℕ) (y : ℕ)
    → IsFreed t xs y
    → IsSettled (entries_at t.nodes xs) (move_last t y)
unfolding move_last
move_last_lem t xs y f = elim (Bool-cases (y == t.next_free - 1)) [
  | inr e ↦ settled t xs y f e
  | inl e ↦
      let used : (0 < y) × (y < t.next_free) = ground (arith, f.counted y, one_if_self y) in
      let same : y ≡ t.next_free - 1 = ground (arith, e) in
      rw e (record {
        places = xs;
        valid = record {
          positive = omega (arith, used);
          fits = inl (omega (arith, f.room));
          held = λ _. f.held;
          counted =
              λ j. last_gone t.next_free y j (occurs j xs) (omega (arith, used)) same (f.counted j);
          walk = ground (arith, f.walk, f.aside, same);
        };
        entries = refl;
      })
]
