-- ===== src/Rbtree/Fixup/Inner.antt =====
-- insert_fixup, the branch of a black uncle: an inner grandchild is first rotated to the outside.
use nifty.Base.{ℕ, ◌+◌, ◌≤◌, ◌≡◌, ◌∙◌, refl, sym, true, false, Bool, List, ◌==◌, arith}
use nifty.Rbtree.{Side, left, right, other, Node, Nodes, child, rotate, lift_parent, rebuild}
use nifty.Rbtree.Shape.{
  Tree, order, Rim, rim, around, occurs, one_if, in_tree, in_rim, in_tree-fork, IsNode, IsRim, fork,
  IsFork, IsTree-fork, top-fork,
}
use nifty.Rbtree.Rotate.{IsLinked}
use nifty.Rbtree.Turn.{around-turn, turn-IsFork, turn-IsRim, turn-IsLinked}
use nifty.Rbtree.Colour.{IsBalanced, fork-IsHot, IsSameContent, IsLinked-IsSameContent}
use nifty.Rbtree.Fixup.{AreApart, IsFixing, places_count}

pub other-other : (w : Side) → other (other w) ≡ w
other-other left = refl
other-other right = refl

flip-IsNode :
    {n : Node} {p : ℕ} {c : Bool} (w : Side) {x y : ℕ}
    → IsNode n p c w x y
    → IsNode n p c (other w) y x
flip-IsNode left n = record { parent = n.parent; red = n.red; near = n.far; far = n.near }
flip-IsNode right n = record { parent = n.parent; red = n.red; near = n.far; far = n.near }

around-flip :
    (w : Side) (c c' : Bool) (i : ℕ) (x y : Tree) (z : Rim)
    → around (rim (other w) c i y z) (order x) ≡ around z (order (fork w c' i y x))
around-flip left c c' i x y z = refl
around-flip right c c' i x y z = refl

module _ (xs : List ℕ) (apart : AreApart xs) (nodes : Nodes) (v : Side) (p g x n : ℕ)
    (a b s u : Tree) (z : Rim)
    (f : IsFixing xs nodes (rim v true p s (rim (other v) false g u z)) n (fork v true x a b))
    (hot_a : IsBalanced true n a) (hot_b : IsBalanced true n b) where
  inner_count :
      (j : ℕ)
      → in_tree j a
          + one_if j x
          + in_tree j b
          + (in_tree j s + one_if j p + (in_tree j u + one_if j g + in_rim j z))
        ≡ occurs j xs
  inner_count j = omega (
    arith,
    places_count xs (rim v true p s (rim (other v) false g u z)) (fork v true x a b) j f.places,
    in_tree-fork j v true x a b,
  )

  once :
      (j : ℕ)
      → in_tree j a
          + one_if j x
          + in_tree j b
          + (in_tree j s + one_if j p + (in_tree j u + one_if j g + in_rim j z))
        ≤ 1
  once j = omega (arith, inner_count j, apart.once j)

  none_nil :
      in_tree 0 a
        + one_if 0 x
        + in_tree 0 b
        + (in_tree 0 s + one_if 0 p + (in_tree 0 u + one_if 0 g + in_rim 0 z))
      ≡ 0
  none_nil = omega (arith, inner_count 0, apart.nil)

  IsFork-x : IsFork nodes p v true x a b
  IsFork-x = IsTree-fork nodes p v true x a b f.tree

  IsRim-x : IsRim nodes x (rim v true p s (rim (other v) false g u z))
  IsRim-x = rw (← top-fork v true x a b) f.rim

  abbrev pub turned_out : Nodes
  turned_out = rotate nodes g p x

  turned-IsFork : IsFork turned_out g v true x a (fork v true p b s)
  turned-IsFork =
      turn-IsFork nodes v true true x p a b s (rim (other v) false g u z) IsFork-x IsRim-x once
        none_nil

  turned-IsRim : IsRim turned_out x (rim (other v) false g u z)
  turned-IsRim =
      turn-IsRim nodes v true true x p a b s (rim (other v) false g u z) IsFork-x IsRim-x once
        none_nil

  turned-IsLinked : IsLinked nodes turned_out
  turned-IsLinked =
      turn-IsLinked nodes v true true x p a b s (rim (other v) false g u z) IsFork-x IsRim-x once
        none_nil

  pub turned-IsFixing :
      IsFixing xs turned_out
        (rim (other v) true x a (rim (other v) false g u z))
        n
        (fork v true p b s)
  turned-IsFixing = record {
    tree = turned-IsFork.far;
    rim = (
      turned-IsFork.positive,
      flip-IsNode v turned-IsFork.node,
      turned-IsFork.near,
      turned-IsRim,
    );
    hot = fork-IsHot v n p b s hot_b f.balanced.0;
    balanced = (hot_a, f.balanced.1, f.balanced.2);
    nil = turned-IsLinked.colours 0 ∙ f.nil;
    places =
        around-flip v true true x (fork v true p b s) a (rim (other v) false g u z)
        ∙ sym (around-turn v true true true true x p a b s (rim (other v) false g u z))
        ∙ f.places;
  }

  pub turned_out-IsSameContent : IsSameContent nodes turned_out
  turned_out-IsSameContent = IsLinked-IsSameContent turned-IsLinked

  turned_p : (turned_out p).parent ≡ x
  turned_p = (IsTree-fork turned_out x v true p b s turned-IsFork.far).node.parent

  turned_child : child (turned_out x) (other v) ≡ p
  turned_child = turned-IsFork.node.far ∙ top-fork v true p b s

  pub rebuild_inner : rebuild nodes x p g v ≡ (lift_parent turned_out x g, p)
  unfolding rebuild
  rebuild_inner =
      let here : child (nodes p) v ≡ x = IsRim-x.1.near in
      let same : (x == x) ≡ true = ground arith in
      rw (here, same, turned_child, turned_p, turned-IsFork.node.parent)
