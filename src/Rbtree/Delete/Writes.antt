-- ===== src/Rbtree/Delete/Writes.antt =====
-- delete_node, its end: what the writes to the array make of each node.
use nifty.Base.{ℕ, ◌<◌, ◌≡◌, ◌≢◌, ◌∙◌, ap, ◌==◌, if◌then◌else◌, arith}
use nifty.Rbtree.{
  Side, left, right, Node, Nodes, with_child, set_node, set_child, set_parent, root_of,
}
use nifty.Rbtree.Rotate.{IsSame, IsLinked, IsLinked-trans, set_child-IsLinked, set_parent-IsLinked}

-- The writes, with the children `a` and `b` of the last node `k`, and its parent `p`.
abbrev pub base : Nodes → (k y : ℕ) → Nodes
base nodes k y = set_node nodes y (nodes k)

abbrev pub adopted : Nodes → (k y a b : ℕ) → Nodes
adopted nodes k y a b = set_parent (set_parent (base nodes k y) a y) b y

abbrev pub moved : Nodes → (k y a b p : ℕ) → Side → Nodes
moved nodes k y a b p w = set_child (adopted nodes k y a b) p w y

set_child_other :
    (nodes : Nodes) (i j : ℕ) (w : Side) (c : ℕ) → j ≢ i → set_child nodes i w c j ≡ nodes j
set_child_other nodes i j w c n = ground arith

set_parent_other : (nodes : Nodes) (i j c : ℕ) → j ≢ i → set_parent nodes i c j ≡ nodes j
set_parent_other nodes i j c n = ground arith

set_parent_same :
    (nodes : Nodes) (i c : ℕ) → set_parent nodes i c i ≡ record (nodes i) { parent = c }
set_parent_same nodes i c = ground arith

set_child_same :
    (nodes : Nodes) (i : ℕ) (w : Side) (c : ℕ) → set_child nodes i w c i ≡ with_child (nodes i) w c
set_child_same nodes i w c = ground arith

root-set_child :
    (nodes : Nodes) (p x : ℕ) (w : Side)
    → (p ≡ 0 → w ≡ left)
    → root_of (set_child nodes p w x) ≡ (if p == 0 then x else root_of nodes)
root-set_child nodes p x left h = ground arith
root-set_child nodes p x right h = ground (arith, h)

module _ (nodes : Nodes) (k y a b p : ℕ) (w : Side) where
  pub adopted_other : (j : ℕ) → j ≢ y → j ≢ a → j ≢ b → adopted nodes k y a b j ≡ nodes j
  adopted_other j n m o =
      set_parent_other (set_parent (base nodes k y) a y) b j y o
      ∙ set_parent_other (base nodes k y) a j y m
      ∙ ground arith

  pub moved_other : (j : ℕ) → j ≢ y → j ≢ a → j ≢ b → j ≢ p → moved nodes k y a b p w j ≡ nodes j
  moved_other j n m o q = set_child_other (adopted nodes k y a b) p j w y q ∙ adopted_other j n m o

  pub moved_near :
      a ≢ y → a ≢ b → a ≢ p → moved nodes k y a b p w a ≡ record (nodes a) { parent = y }
  moved_near n m q =
      set_child_other (adopted nodes k y a b) p a w y q
      ∙ set_parent_other (set_parent (base nodes k y) a y) b a y m
      ∙ set_parent_same (base nodes k y) a y
      ∙ ground arith

  pub moved_far :
      b ≢ y → b ≢ a → b ≢ p → moved nodes k y a b p w b ≡ record (nodes b) { parent = y }
  moved_far n m q =
      set_child_other (adopted nodes k y a b) p b w y q
      ∙ set_parent_same (set_parent (base nodes k y) a y) b y
      ∙ ap (λ (x : Node). record x { parent = y }) (set_parent_other (base nodes k y) a b y m)
      ∙ ground arith

  pub moved_here : y ≢ a → y ≢ b → y ≢ p → moved nodes k y a b p w y ≡ nodes k
  moved_here n m q =
      set_child_other (adopted nodes k y a b) p y w y q
      ∙ set_parent_other (set_parent (base nodes k y) a y) b y y m
      ∙ set_parent_other (base nodes k y) a y y n
      ∙ ground arith

  pub moved_above : p ≢ y → p ≢ a → p ≢ b → moved nodes k y a b p w p ≡ with_child (nodes p) w y
  moved_above n m q =
      set_child_same (adopted nodes k y a b) p w y
      ∙ ap (λ (x : Node). with_child x w y) (adopted_other p n m q)

  pub left-adopted : (j : ℕ) → j ≢ y → (adopted nodes k y a b j).left ≡ (nodes j).left
  left-adopted j n = ground arith

  pub moved_root :
      0 < y
      → (p ≡ 0 → w ≡ left)
      → root_of (moved nodes k y a b p w) ≡ (if p == 0 then y else root_of nodes)
  moved_root pos h =
      root-set_child (adopted nodes k y a b) p y w h
      ∙ ap (λ (r : ℕ). if p == 0 then y else r) (left-adopted 0 (λ e. omega arith))

  moved-IsLinked : IsLinked (base nodes k y) (moved nodes k y a b p w)
  moved-IsLinked = IsLinked-trans (set_parent-IsLinked (base nodes k y) a y) (
      IsLinked-trans (set_parent-IsLinked (set_parent (base nodes k y) a y) b y)
        (set_child-IsLinked (adopted nodes k y a b) p w y))

  pub base_other : (j : ℕ) → j ≢ y → base nodes k y j ≡ nodes j
  base_other j n = ground arith

  base_here : base nodes k y y ≡ nodes k
  base_here = ground arith

  pub moved_nil : 0 < y → (moved nodes k y a b p w 0).red ≡ (nodes 0).red
  moved_nil pos =
      moved-IsLinked.colours 0 ∙ ap (λ (x : Node). x.red) (base_other 0 (λ e. omega arith))

  pub moved_same : (j : ℕ) → j ≢ y → IsSame (nodes j) (moved nodes k y a b p w j)
  moved_same j n = (
    (moved-IsLinked.contents j).0 ∙ ap (λ (x : Node). x.key) (base_other j n),
    (moved-IsLinked.contents j).1 ∙ ap (λ (x : Node). x.value) (base_other j n),
  )

  pub moved_entry : IsSame (nodes k) (moved nodes k y a b p w y)
  moved_entry = (
    (moved-IsLinked.contents y).0 ∙ ap (λ (x : Node). x.key) base_here,
    (moved-IsLinked.contents y).1 ∙ ap (λ (x : Node). x.value) base_here,
  )
