-- ===== src/Rbtree/Validate/Links.antt =====
-- rbtree_validate: what holds of the links and colours of a tree that it accepts.
use nifty.Base.{ℕ, ◌<◌, ◌≡◌, Bool, false, not, Option, none, some, ◌==◌, ◌&&◌}
use nifty.Rbtree.{Rbtree, Compare, Nodes, root_of}
use nifty.Rbtree.Shape.{Tree, leaf, node, top, IsTree}

-- No red node has a red child; the node above is red if `p`.
abbrev pub HasNoRedPair : Bool → Tree → Type 0
HasNoRedPair p leaf = Unit {0}
HasNoRedPair p (node c l i r) = ((p && c) ≡ false) × HasNoRedPair c l × HasNoRedPair c r

-- The places of all nodes are in use.
abbrev pub IsInside : ℕ → Tree → Type 0
IsInside bound leaf = Unit {0}
IsInside bound (node c l i r) = (i < bound) × IsInside bound l × IsInside bound r

-- The walk from `i` is one through a tree.
record IsChecked (bound : ℕ) (nodes : Nodes) (i : ℕ) : Type 0 where
  tree : Tree
  start : top tree ≡ i
  links : IsTree nodes (nodes i).parent tree
  colours : HasNoRedPair false tree
  inside : IsInside bound tree

-- What the tests of a node say.
record IsSound (bound : ℕ) (nodes : Nodes) (i : ℕ) : Type 0 where
  pos : 0 < i
  lt : i < bound
  near : (not ((nodes i).left == 0) && not ((nodes (nodes i).left).parent == i)) ≡ false
  far : (not ((nodes i).right == 0) && not ((nodes (nodes i).right).parent == i)) ≡ false
  near_red : ((nodes i).red && (nodes (nodes i).left).red) ≡ false
  far_red : ((nodes i).red && (nodes (nodes i).right).red) ≡ false

-- The nodes are linked to a tree below the sentinel, without a red node that has a red child.
pub record IsLinked (t : Rbtree) : Type 0 where
  pub tree : Tree
  pub root : root_of t.nodes ≡ top tree
  pub links : IsTree t.nodes 0 tree
  pub colours : HasNoRedPair false tree
  pub inside : IsInside t.next_free tree
  pub nil : (t.nodes 0).red ≡ false
  pub walk : t.current < t.next_free

module _ (cmp : Compare) (t : Rbtree) where
  abbrev verdict : Option Bool → Bool
  verdict none = false
  verdict (some b) = b
