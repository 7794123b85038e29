-- ===== src/Rbtree/Delete/Node.antt =====
-- delete_node: from a valid tree it takes one entry, and leaves the others.
use mathlib.Core.Path.{subst}
use nifty.Base.{
  ℕ, ◌+◌, ◌≤◌, ◌<◌, ◌≡◌, ◌≢◌, inl, inr, ◌∙◌, sym, ap, Bool, true, false, ◌||◌, List, ◌∷◌, ◌++◌,
  ◌==◌, if◌then◌else◌, arith, Bool-cases,
}
use nifty.Rbtree.{Rbtree, Side, left, right, Node, Nodes, set_node}
use nifty.Rbtree.Shape.{
  Tree, leaf, node, top, order, Rim, rim, above, around, occurs, occurs-order, one_if, one_if_self,
  one_if_eq, in_tree, in_rim, fork, IsNode, IsTree-fork,
}
use nifty.Rbtree.Rotate.{IsSame}
use nifty.Rbtree.Place.{positive_test}
use nifty.Rbtree.Valid.{IsValid, in_use, counted-AreApart}
use nifty.Rbtree.Read.{node_successor}
use nifty.Rbtree.Read.Walk.{next}
use nifty.Rbtree.Insert.Sorted.{Entry, entry, entries_at}
use nifty.Rbtree.Delete.{choose_removed, delete_node}
use nifty.Rbtree.Delete.Locate.{IsFocus, right-IsFocus, locate}
use nifty.Rbtree.Delete.Settle.{entries_around, entries_between}
use nifty.Rbtree.Delete.First.{first, IsFirst, IsAlike, alike-IsFocus}
use nifty.Rbtree.Delete.Gone.{IsWithout, IsWithout-around, IsDeleted, gone, alone-IsWithout}
use nifty.Rbtree.Delete.Next.{used_lt, count, successor_eq, successor_place}

write-IsAlike :
    (nodes : Nodes) (i k v j : ℕ)
    → IsAlike (nodes j) (set_node nodes i (record (nodes i) { key = k; value = v }) j)
write-IsAlike nodes i k v j = record {
  left = ground arith;
  right = ground arith;
  parent = ground arith;
  red = ground arith;
}

-- The walk that stands at the node which goes waits at the other one.
walk_kept :
    (n i y k : ℕ)
    → i < n
    → k < n
    → y ≢ i
    → ((if k == y then i else k) < n) × ((if k == y then i else k) ≢ y)
walk_kept n i y k h m e = (ground arith, ground arith)

one_child :
    (n : Node) (w : Side) (p x : ℕ) (c : Bool)
    → IsNode n p c w x 0
    → ((n.left == 0) || (n.right == 0)) ≡ true
one_child n left p x c o = ground (arith, o.far)
one_child n right p x c o = ground (arith, o.far)

-- A node with one child at most.
module _ (t : Rbtree) (xs : List ℕ) (counted : (j : ℕ) → occurs j xs ≡ in_use t.next_free j)
    (some : 0 < t.next_free) where
  past :
      (w : Side) (c : Bool) (y : ℕ) (u : Tree) (z : Rim) (n : ℕ)
      → IsFocus xs t.nodes z n (fork w c y u leaf)
      → (node_successor t y < t.next_free) × (node_successor t y ≢ y)
  past left c y u z n f = successor_place t xs counted some c u y leaf z n f
  past right c y u z n f = successor_place t xs counted some c leaf y u z n f

  delete_alone :
      (w : Side) (c : Bool) (y : ℕ) (u : Tree) (z : Rim) (n : ℕ)
      → IsFocus xs t.nodes z n (fork w c y u leaf)
      → t.next_free ≤ t.num_nodes
      → t.current < t.next_free
      → IsDeleted (entry (t.nodes y)) (entries_at t.nodes xs) (delete_node t y)
  unfolding delete_node choose_removed
  delete_alone w c y u z n f room walk =
      let few : (((t.nodes y).left == 0) || ((t.nodes y).right == 0)) ≡ true =
        one_child (t.nodes y) w (above z) (top u) c
          (IsTree-fork t.nodes (above z) w c y u leaf f.at.tree).node in
      let next_place = past w c y u z n f in
      let left_over = entries_at t.nodes (around z (order u)) in
      let lost = alone-IsWithout t xs w c y u z n counted some room f in
      elim (Bool-cases (t.current == y)) [
        | inl e ↦
            rw (few, e)
              (record {
                left_over = left_over;
                without = lost;
                settled =
                    gone (record t { current = node_successor t y }) xs w c y u z n counted some
                      room f next_place.0 next_place.1;
              })
        | inr e ↦
            rw (few, e)
              (record {
                left_over = left_over;
                without = lost;
                settled = gone t xs w c y u z n counted some room f walk (ground (arith, e));
              })
      ]

  -- A node with two children takes the entry of the next node, which goes instead.
  module _ (c : Bool) (l : Tree) (i : ℕ) (r : Tree) (z : Rim) (n : ℕ)
      (f : IsFocus xs t.nodes z n (node c l i r))
      (o : IsFirst xs t.nodes (rim right c i l z) r) where
    abbrev written : Nodes
    written =
        set_node t.nodes i
          (record (t.nodes i) { key = (t.nodes o.place).key; value = (t.nodes o.place).value })

    written-IsAlike : (j : ℕ) → IsAlike (t.nodes j) (written j)
    written-IsAlike = write-IsAlike t.nodes i (t.nodes o.place).key (t.nodes o.place).value

    others : (j : ℕ) → j ≢ i → IsSame (t.nodes j) (written j)
    others j e = (ground arith, ground arith)

    taken : IsSame (t.nodes o.place) (written i)
    taken = (ground arith, ground arith)

    not_i : (j : ℕ) → 0 < in_tree j l + in_tree j r + in_rim j z → j ≢ i
    not_i j h e = omega (
      arith,
      count t xs counted some c l i r z n f j,
      (counted-AreApart t.next_free xs counted).once j,
      h,
      one_if_eq j i e,
    )

    behind_count : (j : ℕ) → in_tree j r ≡ one_if j o.place + occurs j (order o.far ++ o.tail)
    unfolding occurs
    behind_count j = omega (arith, occurs-order j r, ap (occurs j) o.order_eq)

    -- The entries but that of `i`.
    kept_entries :
        entries_at written (around o.rest (order o.far))
        ≡ entries_at t.nodes (around z (order l ++ (o.place ∷ (order o.far ++ o.tail))))
    kept_entries =
        ap (entries_at written) (o.beyond (order o.far))
        ∙ entries_around t.nodes written z (order l ++ (i ∷ (order o.far ++ o.tail)))
            (order l ++ (o.place ∷ (order o.far ++ o.tail)))
            (λ j h. others j (not_i j (omega (arith, h))))
            (entries_between t.nodes written (order l) (order o.far ++ o.tail) o.place i
              (λ j h. others j (not_i j (omega (arith, h, occurs-order j l))))
              (λ j h. others j (not_i j (omega (arith, h, behind_count j)))) taken)

    lost_entry :
        IsWithout
          (entry (t.nodes i))
          (entries_at t.nodes xs)
          (entries_at t.nodes (around z (order l ++ (o.place ∷ (order o.far ++ o.tail)))))
    lost_entry =
        subst
          (λ (js : List ℕ).
            IsWithout (entry (t.nodes i)) (entries_at t.nodes js)
              (entries_at t.nodes (around z (order l ++ (o.place ∷ (order o.far ++ o.tail))))))
          (ap (λ (js : List ℕ). around z (order l ++ (i ∷ js))) (sym o.order_eq) ∙ f.at.places)
          (IsWithout-around t.nodes i z (order l) (o.place ∷ (order o.far ++ o.tail)))

    delete_between :
        0 < top l
        → 0 < top r
        → t.next_free ≤ t.num_nodes
        → t.current < t.next_free
        → IsDeleted (entry (t.nodes i)) (entries_at t.nodes xs) (delete_node t i)
    unfolding delete_node choose_removed
    delete_between hl hr room walk =
        let no_left : ((t.nodes i).left == 0) ≡ false =
          ap (λ (k : ℕ). k == 0) f.at.tree.1.near ∙ positive_test (top l) hl in
        let no_right : ((t.nodes i).right == 0) ≡ false =
          ap (λ (k : ℕ). k == 0) f.at.tree.1.far ∙ positive_test (top r) hr in
        let next_place : node_successor t i ≡ o.place =
          successor_eq t xs counted some c l i r z n f ∙ o.start_eq (next z) in
        let place_other : o.place ≢ i =
          λ e. (successor_place t xs counted some c l i r z n f).1 (next_place ∙ e) in
        let used =
          used_lt t.next_free i (occurs i xs) (counted i)
            (omega (arith, count t xs counted some c l i r z n f i, one_if_self i)) in
        let (walk', aside) = walk_kept t.next_free i o.place t.current used walk place_other in
        let s = record t {
          nodes = written;
          current = if t.current == o.place then i else t.current;
        } in
        let settled =
          gone s xs right o.colour o.place o.far o.rest o.black counted some room
            (alike-IsFocus t.nodes written written-IsAlike xs o.rest o.black
              (node o.colour leaf o.place o.far) o.focus)
            walk' aside in
        rw (no_left, no_right, next_place)
          (record {
            left_over = entries_at written (around o.rest (order o.far));
            without =
                subst
                  (λ (es : List Entry). IsWithout (entry (t.nodes i)) (entries_at t.nodes xs) es)
                  (sym kept_entries) lost_entry;
            settled = settled;
          })

delete_focus :
    (t : Rbtree) (xs : List ℕ) (c : Bool) (l : Tree) (i : ℕ) (r : Tree) (z : Rim) (n : ℕ)
    → ((j : ℕ) → occurs j xs ≡ in_use t.next_free j)
    → 0 < t.next_free
    → t.next_free ≤ t.num_nodes
    → t.current < t.next_free
    → IsFocus xs t.nodes z n (node c l i r)
    → IsDeleted (entry (t.nodes i)) (entries_at t.nodes xs) (delete_node t i)
delete_focus t xs c leaf i r z n counted some room walk f =
    delete_alone t xs counted some right c i r z n f room walk
delete_focus t xs c (node d l j s) i leaf z n counted some room walk f =
    delete_alone t xs counted some left c i (node d l j s) z n f room walk
delete_focus t xs c (node d l j s) i (node e a k b) z n counted some room walk f =
    let (m, g) = right-IsFocus xs t.nodes z n c (node d l j s) i (node e a k b) f in
    delete_between t xs counted some c (node d l j s) i (node e a k b) z n f
      (first xs t.nodes (rim right c i (node d l j s) z) m e a k b g) f.at.tree.2.0 f.at.tree.3.0
      room walk

-- delete_node of a node of a valid tree leaves a valid tree, so a red-black one, which has the same
-- entries in the same order but for that of the node.
pub delete_node_lem :
    (t : Rbtree) (xs : List ℕ) (i : ℕ)
    → IsValid t xs
    → 0 < t.num_nodes
    → 0 < occurs i xs
    → IsDeleted (entry (t.nodes i)) (entries_at t.nodes xs) (delete_node t i)
delete_node_lem t xs i v pos h =
    let o = locate xs t.nodes i (v.held pos) h in
    delete_focus t xs o.colour o.near i o.far o.rest o.black v.counted v.positive
      (ground (arith, v.fits, pos)) v.walk o.focus
