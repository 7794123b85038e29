-- ===== src/Rbtree/Delete/Splice.antt =====
-- delete_node: a node with one child at most is taken out of the tree, and the tree is rebalanced.
use nifty.Base.{
  ℕ, zero, suc, ◌+◌, ◌<◌, ◌≡◌, ◌≢◌, ◌∙◌, refl, Bool, true, false, not, List, ◌==◌, if◌then◌else◌,
  arith,
}
use nifty.Rbtree.{Side, left, right, Nodes, set_parent, side_of}
use nifty.Rbtree.Shape.{
  Tree, leaf, top, order, Rim, above, around, height, side, occurs, occurs-around, occurs-order,
  one_if, one_if_self, in_tree, in_rim, in_tree-fork, IsTree, IsRim, IsTree-adopt, IsRim-hang, fork,
  IsFork, IsTree-fork, top-fork, ne_top, ne_above, top_in_tree, above-in_rim,
}
use nifty.Rbtree.Turn.{rim_side, side_root}
use nifty.Rbtree.Rotate.{IsLinked, IsLinked-trans, set_child-IsLinked, set_parent-IsLinked}
use nifty.Rbtree.Colour.{
  IsBalanced, IsBalancedRim, is_red_above, IsBalanced-weaken, IsSameContent, IsSameContent-trans,
  IsLinked-IsSameContent,
}
use nifty.Rbtree.Fixup.{AreApart, places_count}
use nifty.Rbtree.Fixup.Loop.{IsRedBlack, whole}
use nifty.Rbtree.Delete.{splice_out, remove_node}
use nifty.Rbtree.Delete.Moves.{IsAt}
use nifty.Rbtree.Delete.Sibling.{IsShort}
use nifty.Rbtree.Delete.Loop.{delete_fixup_lem}
use nifty.Rbtree.Delete.Hang.{
  only_child, swap_test, left-set_parent, hang, hang_else, hang_child, hang_parent, hang_root,
  hang_hangs, IsSunk-of_balanced,
}

red_child :
    (p : Bool) (n : ℕ) (w : Side) (y : ℕ) (t : Tree)
    → IsBalanced p n (fork w true y t leaf)
    → (p ≡ false) × IsBalanced true n t
red_child p n left y t b = (b.0, b.1)
red_child p n right y t b = (b.0, b.2)

black_child :
    (p : Bool) (n : ℕ) (w : Side) (y : ℕ) (t : Tree)
    → IsBalanced p (suc n) (fork w false y t leaf)
    → IsBalanced false n t
black_child p n left y t b = b.0
black_child p n right y t b = b.1

no_black : (p : Bool) (w : Side) (y : ℕ) (t : Tree) → ¬ (IsBalanced p zero (fork w false y t leaf))
no_black p left y t b = b
no_black p right y t b = b

module _ (xs : List ℕ) (apart : AreApart xs) (nodes : Nodes) (w : Side) (c : Bool) (y : ℕ)
    (t : Tree) (z : Rim) (a : IsAt xs nodes z (fork w c y t leaf)) where
  -- The places that are left.
  abbrev rest : List ℕ
  rest = around z (order t)

  abbrev hung : Nodes
  hung = set_parent nodes (top t) (above z)

  abbrev spliced : Nodes
  spliced = hang nodes (top t) (above z) (side z)

  at : IsFork nodes (above z) w c y t leaf
  at = IsTree-fork nodes (above z) w c y t leaf a.tree

  y-IsRim : IsRim nodes y z
  y-IsRim = rw (← top-fork w c y t leaf) a.rim

  count : (j : ℕ) → in_tree j t + one_if j y + in_rim j z ≡ occurs j xs
  count j =
      omega (arith, places_count xs z (fork w c y t leaf) j a.places, in_tree-fork j w c y t leaf)

  rest_count : (j : ℕ) → occurs j rest ≡ in_tree j t + in_rim j z
  rest_count j = omega (arith, occurs-around j z (order t), occurs-order j t)

  rest-AreApart : AreApart rest
  rest-AreApart = record {
    once = λ j. omega (arith, rest_count j, count j, apart.once j);
    nil = omega (arith, rest_count 0, count 0, apart.nil);
  }

  links : IsLinked nodes spliced
  links =
      IsLinked-trans (set_parent-IsLinked nodes (top t) (above z))
        (set_child-IsLinked hung (above z) (side z) (top t))

  child_place : (if not ((nodes y).left == 0) then (nodes y).left else (nodes y).right) ≡ top t
  child_place = only_child (nodes y) w (above z) (top t) c at.node

  side_found : side_of ((hung (above z)).left == y) ≡ side z
  side_found =
      rw (left-set_parent nodes (top t) (above z) (above z), swap_test (nodes (above z)).left y)
        (rim_side nodes y z y-IsRim at.positive
          (omega (arith, count y, apart.once y, one_if_self y)))

  splice_out_eq : splice_out nodes y ≡ (top t, spliced)
  unfolding splice_out
  splice_out_eq = rw (splice_out, child_place, at.node.parent, side_found) refl

  pos : (j : ℕ) → 0 < in_tree j t + in_rim j z → 0 < j
  pos zero h = omega (arith, count 0, apart.nil)
  pos (suc j) h = omega arith

  not_above : (j : ℕ) → 0 < in_tree j t → j ≢ above z
  not_above j h = ne_above j z (pos j (omega arith)) (omega (arith, count j, apart.once j))

  not_top : (j : ℕ) → 0 < in_rim j z → j ≢ top t
  not_top j h = ne_top j t (pos j (omega arith)) (omega (arith, count j, apart.once j))

  spliced-IsTree : IsTree spliced (above z) t
  spliced-IsTree =
      IsTree-adopt nodes spliced y (above z) t
        (λ j h n. hang_else nodes (top t) (above z) (side z) j n (not_above j h))
        (λ h. hang_child nodes (top t) (above z) (side z) (not_above (top t) (top_in_tree t h)))
        (λ j. omega (arith, count j, apart.once j)) at.near

  spliced-IsRim : IsRim spliced (top t) z
  spliced-IsRim =
      IsRim-hang nodes spliced y (top t) z
        (λ j h n. hang_else nodes (top t) (above z) (side z) j (not_top j h) n)
        (λ h. hang_parent nodes (top t) (above z) (side z) (not_top (above z) (above-in_rim z h)))
        (hang_root nodes (top t) (above z) (side z) (side_root nodes y z y-IsRim))
        (λ j. omega (arith, count j, apart.once j)) y-IsRim

  spliced-IsAt : IsAt rest spliced z t
  spliced-IsAt = record {
    tree = spliced-IsTree;
    rim = spliced-IsRim;
    nil = links.colours 0 ∙ a.nil;
    places = refl;
  }

  hangs : (spliced (top t)).parent ≡ above z
  hangs = hang_hangs nodes (top t) (above z) (side z)

  -- A black node leaves its child one black node short.
  spliced-IsShort :
      (n : ℕ) → IsBalanced false n t → IsBalancedRim (suc n) z → IsShort rest spliced z n t
  spliced-IsShort n b br = record {
    at = spliced-IsAt;
    sunk = IsSunk-of_balanced n t b;
    balanced = br;
    hangs = hangs;
  }

  -- A red node may just go.
  spliced-IsRedBlack :
      (n : ℕ) → IsBalanced (is_red_above z) n t → IsBalancedRim n z → IsRedBlack rest spliced
  spliced-IsRedBlack n b br =
      let o = whole spliced z n t spliced-IsTree spliced-IsRim b br in
      record {
        tree = o.tree;
        black = o.black;
        links = o.links;
        root = o.root;
        balanced = o.balanced;
        nil = spliced-IsAt.nil;
        places = o.places;
      }

  spliced_red : (spliced y).red ≡ c
  spliced_red = links.colours y ∙ at.node.red

  red_gone :
      (n fuel : ℕ)
      → c ≡ true
      → IsBalanced (is_red_above z) n t
      → IsBalancedRim n z
      → IsRedBlack rest (remove_node fuel nodes y) × IsSameContent nodes (remove_node fuel nodes y)
  unfolding remove_node
  red_gone n fuel e b br =
      rw (splice_out_eq, spliced_red, e) (spliced-IsRedBlack n b br, IsLinked-IsSameContent links)

  black_gone :
      (n fuel : ℕ)
      → c ≡ false
      → IsBalanced false n t
      → IsBalancedRim (suc n) z
      → height z < fuel
      → IsRedBlack rest (remove_node fuel nodes y) × IsSameContent nodes (remove_node fuel nodes y)
  unfolding remove_node
  black_gone n fuel e b br lt =
      let (held, content) =
        delete_fixup_lem rest rest-AreApart fuel spliced z n t (spliced-IsShort n b br) lt in
      rw (splice_out_eq, spliced_red, e)
        (held, IsSameContent-trans (IsLinked-IsSameContent links) content)

-- Where a node of a red-black tree has one child at most, delete_node takes it out of the tree, with
-- the child in its place, and what is left is a red-black tree again, with the same nodes in the
-- same order. The nodes keep their keys and their data.
pub remove_node_lem :
    (xs : List ℕ) (nodes : Nodes) (w : Side) (c : Bool) (y : ℕ) (t : Tree) (z : Rim) (n fuel : ℕ)
    → AreApart xs
    → IsAt xs nodes z (fork w c y t leaf)
    → IsBalanced (is_red_above z) n (fork w c y t leaf)
    → IsBalancedRim n z
    → height z < fuel
    → IsRedBlack (around z (order t)) (remove_node fuel nodes y)
      × IsSameContent nodes (remove_node fuel nodes y)
remove_node_lem xs nodes w true y t z n fuel apart a b br lt =
    let (p, bt) = red_child (is_red_above z) n w y t b in
    red_gone xs apart nodes w true y t z a n fuel refl (rw p (IsBalanced-weaken n t bt)) br
remove_node_lem xs nodes w false y t z zero fuel apart a b br lt =
    absurd (no_black (is_red_above z) w y t b)
remove_node_lem xs nodes w false y t z (suc n) fuel apart a b br lt =
    black_gone xs apart nodes w false y t z a n fuel refl (black_child (is_red_above z) n w y t b)
      br lt
