-- ===== src/Rbtree/Delete/Hang.antt =====
-- delete_node: the two writes that hang a child in the place of its parent.
use nifty.Base.{ℕ, zero, suc, ◌≡◌, ◌≢◌, Bool, true, false, not, ◌==◌, if◌then◌else◌, arith}
use nifty.Rbtree.{Side, left, right, Node, Nodes, with_child, set_child, set_parent, root_of}
use nifty.Rbtree.Shape.{Tree, leaf, node, IsNode}
use nifty.Rbtree.Colour.{IsBalanced, IsBalanced-weaken}
use nifty.Rbtree.Delete.Sibling.{IsSunk}

pub only_child :
    (n : Node) (w : Side) (p x : ℕ) (c : Bool)
    → IsNode n p c w x 0
    → (if not (n.left == 0) then n.left else n.right) ≡ x
only_child n left p x c o = ground (arith, o.near, o.far)
only_child n right p x c o = ground (arith, o.near, o.far)

pub swap_test : (i j : ℕ) → (i == j) ≡ (j == i)
swap_test i j = ground arith

pub left-set_parent : (nodes : Nodes) (x p i : ℕ) → (set_parent nodes x p i).left ≡ (nodes i).left
left-set_parent nodes x p i = ground arith

-- The two writes that hang the node `x` below `p`.
abbrev pub hang : Nodes → (x p : ℕ) → Side → Nodes
hang nodes x p w = set_child (set_parent nodes x p) p w x

module _ (nodes : Nodes) (x p : ℕ) where
  pub hang_else : (w : Side) (j : ℕ) → j ≢ x → j ≢ p → hang nodes x p w j ≡ nodes j
  hang_else w j n m = ground arith

  pub hang_child : (w : Side) → x ≢ p → hang nodes x p w x ≡ record (nodes x) { parent = p }
  hang_child w n = ground arith

  pub hang_parent : (w : Side) → p ≢ x → hang nodes x p w p ≡ with_child (nodes p) w x
  hang_parent left n = ground arith
  hang_parent right n = ground arith

  pub hang_root :
      (w : Side)
      → (p ≡ 0 → w ≡ left)
      → root_of (hang nodes x p w) ≡ (if p == 0 then x else root_of nodes)
  hang_root left h = ground arith
  hang_root right h = ground (arith, h)

  pub hang_hangs : (w : Side) → (hang nodes x p w x).parent ≡ p
  hang_hangs left = ground arith
  hang_hangs right = ground arith

pub IsSunk-of_balanced : (n : ℕ) (t : Tree) → IsBalanced false n t → IsSunk n t
IsSunk-of_balanced n leaf b = b
IsSunk-of_balanced n (node true l i r) b = (IsBalanced-weaken n l b.1, IsBalanced-weaken n r b.2)
IsSunk-of_balanced zero (node false l i r) b = b
IsSunk-of_balanced (suc n) (node false l i r) b = b
