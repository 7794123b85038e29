-- ===== src/Rbtree/Shape.antt =====
-- The tree that the nodes of the array stand for: a subtree, and what surrounds it up to the
-- sentinel.
use nifty.Base.{
  ℕ, suc, ◌+◌, ◌≤◌, ◌<◌, ◌≡◌, ◌≢◌, ◌∙◌, refl, Bool, List, [], ◌∷◌, ◌++◌, ◌==◌, if◌then◌else◌, arith,
}
use nifty.Rbtree.{Side, left, right, other, Node, Nodes, child, with_child, root_of}

-- A subtree: for each node its colour and its place in the array.
pub data Tree : Type 0 where
  leaf : Tree
  node : Bool → Tree → ℕ → Tree → Tree

abbrev pub top : Tree → ℕ
top leaf = 0
top (node c l i r) = i

-- The places of the nodes, in the order of the keys.
abbrev pub order : Tree → List ℕ
order leaf = []
order (node c l i r) = order l ++ (i ∷ order r)

-- What surrounds a subtree, from its parent up to the root: for each node there, the side on
-- which the subtree hangs, the colour, the place, and the other subtree.
pub data Rim : Type 0 where
  none : Rim
  rim : Side → Bool → ℕ → Tree → Rim → Rim

-- The place of the parent.
abbrev pub above : Rim → ℕ
above none = 0
above (rim w c i t z) = i

abbrev pub height : Rim → ℕ
height none = 0
height (rim w c i t z) = suc (height z)

-- The places of the whole tree in order, from those of the subtree.
abbrev pub around : Rim → List ℕ → List ℕ
around none xs = xs
around (rim left c i t z) xs = around z (xs ++ (i ∷ order t))
around (rim right c i t z) xs = around z (order t ++ (i ∷ xs))

unfoldable pub one_if : ℕ → ℕ → ℕ
one_if j i = if i == j then 1 else 0

pub one_if_self : (i : ℕ) → one_if i i ≡ 1
unfolding one_if
one_if_self i = ground arith

pub one_if_eq : (j i : ℕ) → j ≡ i → one_if j i ≡ 1
unfolding one_if
one_if_eq j i h = ground arith

pub one_if_ne : (j i : ℕ) → j ≢ i → one_if j i ≡ 0
unfolding one_if
one_if_ne j i h = ground arith

pub eq_of_one_if : (j i : ℕ) → 0 < one_if j i → j ≡ i
unfolding one_if
eq_of_one_if j i h = ground arith

-- How often a place is in a list, and in what surrounds a subtree.
unfoldable pub occurs : ℕ → List ℕ → ℕ
occurs j [] = 0
occurs j (i ∷ is) = one_if j i + occurs j is

pub occurs-append : (j : ℕ) (xs ys : List ℕ) → occurs j (xs ++ ys) ≡ occurs j xs + occurs j ys
unfolding occurs
occurs-append j [] ys = omega arith
occurs-append j (x ∷ xs) ys = omega (arith, occurs-append j xs ys)

abbrev pub in_tree : ℕ → Tree → ℕ
in_tree j leaf = 0
in_tree j (node c l i r) = in_tree j l + one_if j i + in_tree j r

abbrev pub in_rim : ℕ → Rim → ℕ
in_rim j none = 0
in_rim j (rim w c i t z) = in_tree j t + one_if j i + in_rim j z

pub occurs-order : (j : ℕ) (t : Tree) → occurs j (order t) ≡ in_tree j t
unfolding occurs
occurs-order j leaf = refl
occurs-order j (node c l i r) =
    omega (arith, occurs-append j (order l) (i ∷ order r), occurs-order j l, occurs-order j r)

pub occurs-around :
    (j : ℕ) (z : Rim) (xs : List ℕ) → occurs j (around z xs) ≡ occurs j xs + in_rim j z
unfolding occurs
occurs-around j none xs = omega arith
occurs-around j (rim left c i t z) xs = omega (
  arith,
  occurs-around j z (xs ++ (i ∷ order t)),
  occurs-append j xs (i ∷ order t),
  occurs-order j t,
)
occurs-around j (rim right c i t z) xs = omega (
  arith,
  occurs-around j z (order t ++ (i ∷ xs)),
  occurs-append j (order t) (i ∷ xs),
  occurs-order j t,
)

-- The fields by which a node hangs in the tree: its child on a side, and that on the other.
pub record IsNode (n : Node) (p : ℕ) (c : Bool) (w : Side) (x y : ℕ) : Type 0 where
  pub parent : n.parent ≡ p
  pub red : n.red ≡ c
  pub near : child n w ≡ x
  pub far : child n (other w) ≡ y

-- The nodes hold the subtree, below the node `p`.
abbrev pub IsTree : Nodes → ℕ → Tree → Type 0
IsTree nodes p leaf = Unit {0}
IsTree nodes p (node c l i r) =
    (0 < i) × IsNode (nodes i) p c left (top l) (top r) × IsTree nodes i l × IsTree nodes i r

-- The nodes hold what surrounds a subtree with `h` at its top.
abbrev pub IsRim : Nodes → ℕ → Rim → Type 0
IsRim nodes h none = root_of nodes ≡ h
IsRim nodes h (rim w c i t z) =
    (0 < i) × IsNode (nodes i) (above z) c w h (top t) × IsTree nodes i t × IsRim nodes i z

pub with_child-IsNode :
    {n : Node} {p : ℕ} {c : Bool} (w : Side) {x y : ℕ} (x' : ℕ)
    → IsNode n p c w x y
    → IsNode (with_child n w x') p c w x' y
with_child-IsNode left x' s = record { parent = s.parent; red = s.red; near = refl; far = s.far }
with_child-IsNode right x' s = record { parent = s.parent; red = s.red; near = refl; far = s.far }

pub with_parent-IsNode :
    {n : Node} {p : ℕ} {c : Bool} (w : Side) {x y : ℕ} (q : ℕ)
    → IsNode n p c w x y
    → IsNode (record n { parent = q }) q c w x y
with_parent-IsNode left q s = record { parent = refl; red = s.red; near = s.near; far = s.far }
with_parent-IsNode right q s = record { parent = refl; red = s.red; near = s.near; far = s.far }

-- A node with the subtree `x` on a side, and `y` on the other.
abbrev pub fork : Side → Bool → ℕ → Tree → Tree → Tree
fork left c i x y = node c x i y
fork right c i x y = node c y i x

pub top-fork : (w : Side) (c : Bool) (i : ℕ) (x y : Tree) → top (fork w c i x y) ≡ i
top-fork left c i x y = refl
top-fork right c i x y = refl

pub in_tree-fork :
    (j : ℕ) (w : Side) (c : Bool) (i : ℕ) (x y : Tree)
    → in_tree j (fork w c i x y) ≡ in_tree j x + one_if j i + in_tree j y
in_tree-fork j left c i x y = refl
in_tree-fork j right c i x y = omega arith

-- What the nodes hold of such a node.
pub record IsFork (nodes : Nodes) (p : ℕ) (w : Side) (c : Bool) (i : ℕ) (x y : Tree) : Type 0 where
  pub positive : 0 < i
  pub node : IsNode (nodes i) p c w (top x) (top y)
  pub near : IsTree nodes i x
  pub far : IsTree nodes i y

pub fork-IsTree :
    {nodes : Nodes} {p : ℕ} (w : Side) {c : Bool} {i : ℕ} {x y : Tree}
    → IsFork nodes p w c i x y
    → IsTree nodes p (fork w c i x y)
fork-IsTree left f = (f.positive, f.node, f.near, f.far)
fork-IsTree right f = (
  f.positive,
  record { parent = f.node.parent; red = f.node.red; near = f.node.far; far = f.node.near },
  f.far,
  f.near,
)

pub IsTree-fork :
    (nodes : Nodes) (p : ℕ) (w : Side) (c : Bool) (i : ℕ) (x y : Tree)
    → IsTree nodes p (fork w c i x y)
    → IsFork nodes p w c i x y
IsTree-fork nodes p left c i x y h = record { positive = h.0; node = h.1; near = h.2; far = h.3 }
IsTree-fork nodes p right c i x y h = record {
  positive = h.0;
  node = record { parent = h.1.parent; red = h.1.red; near = h.1.far; far = h.1.near };
  near = h.3;
  far = h.2;
}

-- The nodes of a subtree may be read in any array that agrees there.
pub IsTree-frame :
    (nodes nodes' : Nodes) (p : ℕ) (t : Tree)
    → ((j : ℕ) → 0 < in_tree j t → nodes' j ≡ nodes j)
    → IsTree nodes p t
    → IsTree nodes' p t
IsTree-frame nodes nodes' p leaf e h = tt
IsTree-frame nodes nodes' p (node c l i r) e h = (
  h.0,
  rw (e i (omega (arith, one_if_self i))) h.1,
  IsTree-frame nodes nodes' i l (λ j q. e j (omega arith)) h.2,
  IsTree-frame nodes nodes' i r (λ j q. e j (omega arith)) h.3,
)

-- The node at its top may have a new parent.
pub IsTree-adopt :
    (nodes nodes' : Nodes) (p q : ℕ) (t : Tree)
    → ((j : ℕ) → 0 < in_tree j t → j ≢ top t → nodes' j ≡ nodes j)
    → (0 < top t → nodes' (top t) ≡ record (nodes (top t)) { parent = q })
    → ((j : ℕ) → in_tree j t ≤ 1)
    → IsTree nodes p t
    → IsTree nodes' q t
IsTree-adopt nodes nodes' p q leaf e f d h = tt
IsTree-adopt nodes nodes' p q (node c l i r) e f d h =
    let apart : (j : ℕ) → 0 < in_tree j l + in_tree j r → j ≢ i =
      λ j g s. omega (arith, d j, one_if_eq j i s) in
    (
      h.0,
      rw (f h.0) (with_parent-IsNode left q h.1),
      IsTree-frame nodes nodes' i l (λ j g. e j (omega arith) (apart j (omega arith))) h.2,
      IsTree-frame nodes nodes' i r (λ j g. e j (omega arith) (apart j (omega arith))) h.3,
    )

-- The same for what surrounds a subtree, with another place `h'` at the top of the subtree.
pub IsRim-frame :
    (nodes nodes' : Nodes) (h : ℕ) (z : Rim)
    → ((j : ℕ) → 0 < in_rim j z → nodes' j ≡ nodes j)
    → root_of nodes' ≡ root_of nodes
    → IsRim nodes h z
    → IsRim nodes' h z
IsRim-frame nodes nodes' h none e r s = r ∙ s
IsRim-frame nodes nodes' h (rim w c i t z) e r s = (
  s.0,
  rw (e i (omega (arith, one_if_self i))) s.1,
  IsTree-frame nodes nodes' i t (λ j q. e j (omega arith)) s.2,
  IsRim-frame nodes nodes' i z (λ j q. e j (omega arith)) r s.3,
)

-- On which side the subtree hangs.
abbrev pub side : Rim → Side
side none = left
side (rim w c i t z) = w

-- A write to the child of the parent hangs another subtree there.
pub IsRim-hang :
    (nodes nodes' : Nodes) (h h' : ℕ) (z : Rim)
    → ((j : ℕ) → 0 < in_rim j z → j ≢ above z → nodes' j ≡ nodes j)
    → (0 < above z → nodes' (above z) ≡ with_child (nodes (above z)) (side z) h')
    → root_of nodes' ≡ (if above z == 0 then h' else root_of nodes)
    → ((j : ℕ) → in_rim j z ≤ 1)
    → IsRim nodes h z
    → IsRim nodes' h' z
IsRim-hang nodes nodes' h h' none e f r d s = r
IsRim-hang nodes nodes' h h' (rim w c i t z) e f r d s =
    let apart : (j : ℕ) → 0 < in_tree j t + in_rim j z → j ≢ i =
      λ j g s. omega (arith, d j, one_if_eq j i s) in
    (
      s.0,
      rw (f s.0) (with_child-IsNode w h' s.1),
      IsTree-frame nodes nodes' i t (λ j g. e j (omega arith) (apart j (omega arith))) s.2,
      IsRim-frame nodes nodes' i z (λ j g. e j (omega arith) (apart j (omega arith)))
          (r ∙ ground arith) s.3,
    )

pub top_in_tree : (t : Tree) → 0 < top t → 0 < in_tree (top t) t
top_in_tree leaf h = h
top_in_tree (node c l i r) h = omega (arith, one_if_self i)

-- A node outside a subtree is not its top.
pub ne_top : (j : ℕ) (t : Tree) → 0 < j → in_tree j t ≡ 0 → j ≢ top t
ne_top j leaf p h e = omega arith
ne_top j (node c l i r) p h e = omega (arith, one_if_eq j i e)

pub ne_above : (j : ℕ) (z : Rim) → 0 < j → in_rim j z ≡ 0 → j ≢ above z
ne_above j none p h e = omega arith
ne_above j (rim w c i t z) p h e = omega (arith, one_if_eq j i e)

pub above-in_rim : (z : Rim) → 0 < above z → 0 < in_rim (above z) z
above-in_rim none h = h
above-in_rim (rim w c i t z) h = omega (arith, one_if_self i)
