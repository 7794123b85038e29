-- ===== src/Rbtree/Delete/Last.antt =====
-- delete_node, its end: the last node of the array moves to the place that became free.
use nifty.Base.{ℕ, zero, suc, ◌+◌, ◌≤◌, ◌<◌, ◌≡◌, ◌≢◌, ◌∙◌, refl, sym, ap, Bool, List, ◌==◌, arith}
use nifty.Rbtree.{Node, Nodes, set_parent, side_of}
use nifty.Rbtree.Shape.{
  Tree, node, top, order, Rim, above, around, side, occurs, one_if, one_if_self, in_tree, in_rim,
  IsTree, IsRim, IsTree-adopt, IsRim-hang, ne_top, ne_above, top_in_tree, above-in_rim,
}
use nifty.Rbtree.Turn.{rim_side, side_root}
use nifty.Rbtree.Fixup.{AreApart, places_count}
use nifty.Rbtree.Delete.Hang.{swap_test}
use nifty.Rbtree.Delete.{move_node}
use nifty.Rbtree.Delete.Moves.{IsAt}
use nifty.Rbtree.Delete.Writes.{
  base, adopted, moved, adopted_other, moved_other, moved_near, moved_far, moved_here, moved_above,
  left-adopted, moved_root, base_other, moved_nil,
}

-- The last node `k` of a tree, in focus, moves to the place `y`, which is not in the tree.
module _ (xs : List ℕ) (apart : AreApart xs) (nodes : Nodes) (c : Bool) (l : Tree) (k : ℕ)
    (r : Tree) (z : Rim) (o : IsAt xs nodes z (node c l k r)) (y : ℕ) (pos : 0 < y)
    (free : occurs y xs ≡ 0) where
  abbrev pub after : Nodes
  after = moved nodes k y (top l) (top r) (above z) (side z)

  count : (j : ℕ) → in_tree j l + one_if j k + in_tree j r + in_rim j z ≡ occurs j xs
  count j = places_count xs z (node c l k r) j o.places

  fit : (j : ℕ) → in_tree j l + one_if j k + in_tree j r + in_rim j z ≤ 1
  fit j = omega (arith, count j, apart.once j)

  positive : (j : ℕ) → 0 < in_tree j l + one_if j k + in_tree j r + in_rim j z → 0 < j
  positive zero h = omega (arith, count 0, apart.nil)
  positive (suc j) h = omega arith

  not_y : (j : ℕ) → 0 < in_tree j l + one_if j k + in_tree j r + in_rim j z → j ≢ y
  not_y j h e = omega (arith, count j, free, ap (λ (i : ℕ). occurs i xs) e)

  y_out : in_tree y l + one_if y k + in_tree y r + in_rim y z ≡ 0
  y_out = omega (arith, count y)

  not_left : (j : ℕ) → 0 < one_if j k + in_tree j r + in_rim j z → j ≢ top l
  not_left j h = ne_top j l (positive j (omega arith)) (omega (arith, fit j))

  not_right : (j : ℕ) → 0 < in_tree j l + one_if j k + in_rim j z → j ≢ top r
  not_right j h = ne_top j r (positive j (omega arith)) (omega (arith, fit j))

  not_above : (j : ℕ) → 0 < in_tree j l + one_if j k + in_tree j r → j ≢ above z
  not_above j h = ne_above j z (positive j (omega arith)) (omega (arith, fit j))

  left-IsTree : IsTree after y l
  left-IsTree =
      IsTree-adopt nodes after k y l
        (λ j h n.
          moved_other nodes k y (top l) (top r) (above z) (side z) j (not_y j (omega arith)) n
            (not_right j (omega arith)) (not_above j (omega arith)))
        (λ h.
          let i = top_in_tree l h in
          moved_near nodes k y (top l) (top r) (above z) (side z) (not_y (top l) (omega arith))
            (not_right (top l) (omega arith)) (not_above (top l) (omega arith)))
        (λ j. omega (arith, fit j)) o.tree.2

  right-IsTree : IsTree after y r
  right-IsTree =
      IsTree-adopt nodes after k y r
        (λ j h n.
          moved_other nodes k y (top l) (top r) (above z) (side z) j (not_y j (omega arith))
            (not_left j (omega arith)) n (not_above j (omega arith)))
        (λ h.
          let i = top_in_tree r h in
          moved_far nodes k y (top l) (top r) (above z) (side z) (not_y (top r) (omega arith))
            (not_left (top r) (omega arith)) (not_above (top r) (omega arith)))
        (λ j. omega (arith, fit j)) o.tree.3

  here : after y ≡ nodes k
  here =
      moved_here nodes k y (top l) (top r) (above z) (side z)
        (ne_top y l pos (omega (arith, y_out))) (ne_top y r pos (omega (arith, y_out)))
        (ne_above y z pos (omega (arith, y_out)))

  after-IsRim : IsRim after y z
  after-IsRim =
      IsRim-hang nodes after k y z
        (λ j h n.
          moved_other nodes k y (top l) (top r) (above z) (side z) j (not_y j (omega arith))
            (not_left j (omega arith)) (not_right j (omega arith)) n)
        (λ h.
          let i = above-in_rim z h in
          moved_above nodes k y (top l) (top r) (above z) (side z) (not_y (above z) (omega arith))
            (not_left (above z) (omega arith)) (not_right (above z) (omega arith)))
        (moved_root nodes k y (top l) (top r) (above z) (side z) pos (side_root nodes k z o.rim))
        (λ j. omega (arith, fit j)) o.rim

  pub after-IsAt : IsAt (around z (order (node c l y r))) after z (node c l y r)
  after-IsAt = record {
    tree = (pos, rw here o.tree.1, left-IsTree, right-IsTree);
    rim = after-IsRim;
    nil = moved_nil nodes k y (top l) (top r) (above z) (side z) pos ∙ o.nil;
    places = refl;
  }

  k_in : 0 < one_if k k
  k_in = omega (arith, one_if_self k)

  k-base : base nodes k y k ≡ nodes k
  k-base = base_other nodes k y (top l) (top r) (above z) (side z) k (not_y k (omega (arith, k_in)))

  k_left : (base nodes k y k).left ≡ top l
  k_left = ap (λ (x : Node). x.left) k-base ∙ o.tree.1.near

  right-set_parent : (n : Nodes) (i p j : ℕ) → (set_parent n i p j).right ≡ (n j).right
  right-set_parent n i p j = ground arith

  k_right : (set_parent (base nodes k y) (top l) y k).right ≡ top r
  k_right =
      right-set_parent (base nodes k y) (top l) y k
      ∙ ap (λ (x : Node). x.right) k-base
      ∙ o.tree.1.far

  k_parent : (adopted nodes k y (top l) (top r) k).parent ≡ above z
  k_parent =
      ap (λ (x : Node). x.parent)
        (adopted_other nodes k y (top l) (top r) (above z) (side z) k
          (not_y k (omega (arith, k_in))) (not_left k (omega (arith, k_in)))
          (not_right k (omega (arith, k_in))))
      ∙ o.tree.1.parent

  k-side : side_of ((adopted nodes k y (top l) (top r) (above z)).left == k) ≡ side z
  k-side =
      rw
        (
          left-adopted nodes k y (top l) (top r) (above z) (side z) (above z)
              (λ e. ne_above y z pos (omega (arith, y_out)) (sym e)),
          swap_test (nodes (above z)).left k,
        )
        (rim_side nodes k z o.rim (positive k (omega (arith, k_in))) (omega (arith, fit k, k_in)))

  pub move_node_eq : move_node nodes k y ≡ after
  unfolding move_node
  move_node_eq = rw (move_node, k_left, k_right, k_parent, k-side) refl
