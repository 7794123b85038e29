-- ===== src/Rbtree/Colour.antt =====
-- The red-black condition, on a subtree and on what surrounds one.
use nifty.Base.{ℕ, zero, suc, ◌≡◌, ◌∙◌, refl, Bool, true, false, arith}
use nifty.Rbtree.{Side, left, right, Node, Nodes, set_red}
use nifty.Rbtree.Shape.{Tree, leaf, node, Rim, none, rim, fork, IsNode}
use nifty.Rbtree.Rotate.{IsSame, IsLinked}

-- Below a node that is red, if `p` holds, no red node has a red child, and `n` black nodes lie on
-- each way down.
abbrev pub IsBalanced : Bool → ℕ → Tree → Type 0
IsBalanced p n leaf = n ≡ 0
IsBalanced p n (node true l i r) = (p ≡ false) × IsBalanced true n l × IsBalanced true n r
IsBalanced p zero (node false l i r) = ⊥
IsBalanced p (suc n) (node false l i r) = IsBalanced false n l × IsBalanced false n r

-- The root is black, as if the sentinel above it were red.
abbrev pub is_red_above : Rim → Bool
is_red_above none = true
is_red_above (rim w c i t z) = c

-- The same for the nodes that surround a subtree with `n` black nodes on each way.
abbrev pub IsBalancedRim : ℕ → Rim → Type 0
IsBalancedRim n none = Unit {0}
IsBalancedRim n (rim w true i t z) =
    IsBalanced true n t × (is_red_above z ≡ false) × IsBalancedRim n z
IsBalancedRim n (rim w false i t z) = IsBalanced false n t × IsBalancedRim (suc n) z

-- A subtree with a red node at its top, whatever the colour above it.
abbrev pub IsHot : ℕ → Tree → Type 0
IsHot n leaf = ⊥
IsHot n (node true l i r) = IsBalanced true n l × IsBalanced true n r
IsHot n (node false l i r) = ⊥

pub fork-IsHot :
    (w : Side) (n i : ℕ) (x y : Tree)
    → IsBalanced true n x
    → IsBalanced true n y
    → IsHot n (fork w true i x y)
fork-IsHot left n i x y a b = (a, b)
fork-IsHot right n i x y a b = (b, a)

pub fork-IsBalanced :
    (w : Side) (p : Bool) (n i : ℕ) (x y : Tree)
    → IsBalanced false n x
    → IsBalanced false n y
    → IsBalanced p (suc n) (fork w false i x y)
fork-IsBalanced left p n i x y a b = (a, b)
fork-IsBalanced right p n i x y a b = (b, a)

pub fork_red-IsBalanced :
    (w : Side) (n i : ℕ) (x y : Tree)
    → IsBalanced true n x
    → IsBalanced true n y
    → IsBalanced false n (fork w true i x y)
fork_red-IsBalanced left n i x y a b = (refl, a, b)
fork_red-IsBalanced right n i x y a b = (refl, b, a)

-- Below a red node the condition is the stronger.
pub IsBalanced-weaken : (n : ℕ) (t : Tree) → IsBalanced true n t → IsBalanced false n t
IsBalanced-weaken n leaf h = h
IsBalanced-weaken n (node true l i r) h = (refl, h.1, h.2)
IsBalanced-weaken zero (node false l i r) h = h
IsBalanced-weaken (suc n) (node false l i r) h = h

pub IsHot-weaken : (n : ℕ) (t : Tree) → IsHot n t → IsBalanced false n t
IsHot-weaken n leaf h = absurd h
IsHot-weaken n (node true l i r) h = (refl, h.0, h.1)
IsHot-weaken n (node false l i r) h = absurd h

-- All nodes hold the key and the data that they held.
pub record IsSameContent (nodes nodes' : Nodes) : Type 0 where
  pub contents : (j : ℕ) → IsSame (nodes j) (nodes' j)

pub IsSameContent-trans :
    {a b c : Nodes} → IsSameContent a b → IsSameContent b c → IsSameContent a c
IsSameContent-trans f g = record {
  contents = λ j. ((g.contents j).0 ∙ (f.contents j).0, (g.contents j).1 ∙ (f.contents j).1);
}

pub IsLinked-IsSameContent : {a b : Nodes} → IsLinked a b → IsSameContent a b
IsLinked-IsSameContent l = record { contents = l.contents }

pub set_red-IsSameContent :
    (nodes : Nodes) (i : ℕ) (b : Bool) → IsSameContent nodes (set_red nodes i b)
set_red-IsSameContent nodes i b = record { contents = λ j. ground arith }

pub with_red-IsNode :
    {n : Node} {p : ℕ} {c : Bool} (w : Side) {x y : ℕ} (b : Bool)
    → IsNode n p c w x y
    → IsNode (record n { red = b }) p b w x y
with_red-IsNode left b s = record { parent = s.parent; red = refl; near = s.near; far = s.far }
with_red-IsNode right b s = record { parent = s.parent; red = refl; near = s.near; far = s.far }
