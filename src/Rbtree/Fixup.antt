-- ===== src/Rbtree/Fixup.antt =====
-- insert_fixup: each round of its loop keeps the nodes in order and moves the one red node that has
-- a red parent towards the root, or ends the loop.
pub mod Recolour
pub mod Inner
pub mod Round
pub mod Loop
use mathlib.Core.List.{append_assoc}
use nifty.Base.{
  ℕ, zero, suc, ◌+◌, ◌≤◌, ◌<◌, ◌≡◌, ◌≢◌, ◌∙◌, refl, sym, ap, Bool, true, false, not, ◌&&◌, List,
  ◌∷◌, ◌++◌, ◌==◌, if◌then◌else◌, arith, Bool-cases, inl, inr,
}
use nifty.Rbtree.{
  Side, left, right, other, Node, Nodes, child, with_child, set_node, set_red, root_of, rotate,
  side_of, recolour, lift_parent, rebuild, fixup_round,
}
use nifty.Rbtree.Shape.{
  Tree, leaf, node, top, order, Rim, none, rim, above, height, around, occurs, occurs-around,
  occurs-order, one_if, one_if_self, one_if_eq, in_tree, in_rim, in_tree-fork, IsNode, IsTree,
  IsRim, IsTree-frame, IsRim-frame, fork, IsFork, fork-IsTree, IsTree-fork, top-fork,
}
use nifty.Rbtree.Rotate.{IsLinked}
use nifty.Rbtree.Turn.{around-turn, turn-IsFork, turn-IsRim, turn-IsLinked, son_side}
use nifty.Rbtree.Colour.{
  IsBalanced, IsBalancedRim, is_red_above, IsHot, fork-IsHot, fork-IsBalanced, fork_red-IsBalanced,
  IsBalanced-weaken, IsHot-weaken, IsSameContent, IsSameContent-trans, IsLinked-IsSameContent,
  set_red-IsSameContent, with_red-IsNode,
}

-- Each place stands once in the list, and the sentinel does not.
pub record AreApart (xs : List ℕ) : Type 0 where
  pub once : (j : ℕ) → occurs j xs ≤ 1
  pub nil : occurs 0 xs ≡ 0

-- The array holds a tree with the places `xs`, of which the subtree `t` has a red node at its top;
-- the condition may be broken between this node and the one above it, and nowhere else.
pub record IsFixing (xs : List ℕ) (nodes : Nodes) (z : Rim) (n : ℕ) (t : Tree) : Type 0 where
  pub tree : IsTree nodes (above z) t
  pub rim : IsRim nodes (top t) z
  pub hot : IsHot n t
  pub balanced : IsBalancedRim n z
  pub nil : (nodes 0).red ≡ false
  pub places : around z (order t) ≡ xs

-- How often a place stands in the tree.
pub places_count :
    (xs : List ℕ) (z : Rim) (t : Tree) (j : ℕ)
    → around z (order t) ≡ xs
    → in_tree j t + in_rim j z ≡ occurs j xs
places_count xs z t j e =
    omega (arith, occurs-around j z (order t), occurs-order j t, ap (occurs j) e)

pub root-set_red : (nodes : Nodes) (i : ℕ) (b : Bool) → root_of (set_red nodes i b) ≡ root_of nodes
root-set_red nodes i b = ground arith

pub nil-set_red :
    (nodes : Nodes) (i : ℕ) (b : Bool) → 0 < i → (set_red nodes i b 0).red ≡ (nodes 0).red
nil-set_red nodes i b h = ground arith

pub around-fork :
    (w : Side) (c c' : Bool) (i : ℕ) (x y : Tree) (z : Rim)
    → around (rim w c i y z) (order x) ≡ around z (order (fork w c' i x y))
around-fork left c c' i x y z = refl
around-fork right c c' i x y z = refl

-- The order in the tree depends on that in a subtree alone.
pub around_cong :
    (w : Side) (c : Bool) (i : ℕ) (x y : Tree) (z : Rim) (js : List ℕ)
    → order x ≡ order y
    → around (rim w c i x z) js ≡ around (rim w c i y z) js
around_cong left c i x y z js e = ap (λ ks. around z (js ++ (i ∷ ks))) e
around_cong right c i x y z js e = ap (λ ks. around z (ks ++ (i ∷ js))) e

-- The last rotation: `p` comes up, and the node that was above it becomes its other child.
module _ (xs : List ℕ) (apart : AreApart xs) (nodes : Nodes) (w : Side) (p g n : ℕ) (t s u : Tree)
    (z : Rim) (f : IsFixing xs nodes (rim w true p s (rim w false g u z)) n t)
    (black : IsBalanced true n u) where
  abbrev lift_count : ℕ → ℕ
  lift_count j = in_tree j t + (in_tree j s + one_if j p + (in_tree j u + one_if j g + in_rim j z))

  lift_count_lem : (j : ℕ) → lift_count j ≡ occurs j xs
  lift_count_lem j = places_count xs (rim w true p s (rim w false g u z)) t j f.places

  lift_once : (j : ℕ) → lift_count j ≤ 1
  lift_once j = omega (arith, lift_count_lem j, apart.once j)

  lift_pg : p ≢ g
  lift_pg e = omega (arith, lift_once p, one_if_self p, one_if_eq p g e)

  abbrev pub coloured : Nodes
  coloured = set_red (set_red nodes p false) g true

  coloured_rest :
      (j : ℕ) → 0 < in_tree j t + in_tree j s + in_tree j u + in_rim j z → coloured j ≡ nodes j
  coloured_rest j h =
      let jp : j ≢ p = λ e. omega (arith, lift_once j, one_if_eq j p e) in
      let jg : j ≢ g = λ e. omega (arith, lift_once j, one_if_eq j g e) in ground arith

  coloured_p : coloured p ≡ record (nodes p) { red = false }
  coloured_p = ground (arith, lift_pg)

  coloured_g : coloured g ≡ record (nodes g) { red = true }
  coloured_g = ground (arith, lift_pg)

  coloured-IsFork : IsFork coloured g w false p t s
  coloured-IsFork = record {
    positive = f.rim.0;
    node = rw coloured_p (with_red-IsNode w false f.rim.1);
    near = IsTree-frame nodes coloured p t (λ j h. coloured_rest j (omega arith)) f.tree;
    far = IsTree-frame nodes coloured p s (λ j h. coloured_rest j (omega arith)) f.rim.2;
  }

  coloured-root : root_of coloured ≡ root_of nodes
  coloured-root = root-set_red (set_red nodes p false) g true ∙ root-set_red nodes p false

  coloured-IsRim : IsRim coloured p (rim w true g u z)
  coloured-IsRim = (
    f.rim.3.0,
    rw coloured_g (with_red-IsNode w true f.rim.3.1),
    IsTree-frame nodes coloured g u (λ j h. coloured_rest j (omega arith)) f.rim.3.2,
    IsRim-frame nodes coloured g z (λ j h. coloured_rest j (omega arith)) coloured-root f.rim.3.3,
  )

  lift_d₀ : in_tree 0 t + one_if 0 p + in_tree 0 s + (in_tree 0 u + one_if 0 g + in_rim 0 z) ≡ 0
  lift_d₀ = omega (arith, lift_count_lem 0, apart.nil)

  lift_d :
      (j : ℕ) → in_tree j t + one_if j p + in_tree j s + (in_tree j u + one_if j g + in_rim j z) ≤ 1
  lift_d j = omega (arith, lift_once j)

  abbrev pub lifted : Nodes
  lifted = rotate coloured (above z) g p

  pub lift_parent_lem : lift_parent nodes p g ≡ lifted
  unfolding lift_parent
  lift_parent_lem =
      let above_g : (coloured g).parent ≡ above z =
        ap (λ (k : Node). k.parent) coloured_g ∙ f.rim.3.1.parent in
      rw above_g

  lifted-IsFork : IsFork lifted (above z) w false p t (fork w true g s u)
  lifted-IsFork =
      turn-IsFork coloured w true false p g t s u z coloured-IsFork coloured-IsRim lift_d lift_d₀

  lifted-IsLinked : IsLinked coloured lifted
  lifted-IsLinked =
      turn-IsLinked coloured w true false p g t s u z coloured-IsFork coloured-IsRim lift_d lift_d₀

  pub lifted-IsSameContent : IsSameContent nodes lifted
  lifted-IsSameContent = IsSameContent-trans (set_red-IsSameContent nodes p false) (
      IsSameContent-trans (set_red-IsSameContent (set_red nodes p false) g true)
        (IsLinked-IsSameContent lifted-IsLinked))

  pub lifted-IsFixing : IsFixing xs lifted (rim w false p (fork w true g s u) z) n t
  lifted-IsFixing = record {
    tree = lifted-IsFork.near;
    rim = (
      f.rim.0,
      lifted-IsFork.node,
      lifted-IsFork.far,
      turn-IsRim coloured w true false p g t s u z coloured-IsFork coloured-IsRim lift_d lift_d₀,
    );
    hot = f.hot;
    balanced = (fork_red-IsBalanced w n g s u f.balanced.0 black, f.balanced.2.1);
    nil =
        lifted-IsLinked.colours 0
        ∙ nil-set_red (set_red nodes p false) g true f.rim.3.0
        ∙ nil-set_red nodes p false f.rim.0
        ∙ f.nil;
    places =
        around-fork w false false p t (fork w true g s u) z
        ∙ sym (around-turn w false false true false p g t s u z)
        ∙ sym (around-fork w true false p t s (rim w false g u z))
        ∙ f.places;
  }
