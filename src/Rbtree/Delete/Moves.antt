-- ===== src/Rbtree/Delete/Moves.antt =====
-- The moves of which the rebalancing is made, on a tree with one subtree in focus: the focus goes up
-- or down, a node changes its colour, and a rotation.
use nifty.Base.{ℕ, ◌+◌, ◌≤◌, ◌<◌, ◌≡◌, ◌≢◌, ◌∙◌, refl, sym, Bool, false, List, arith}
use nifty.Rbtree.{Side, left, right, other, Nodes, set_red, rotate}
use nifty.Rbtree.Shape.{
  Tree, top, order, Rim, rim, above, around, occurs, one_if, one_if_eq, in_tree, in_rim,
  in_tree-fork, IsTree, IsRim, IsTree-frame, IsRim-frame, fork, IsFork, fork-IsTree, IsTree-fork,
  top-fork,
}
use nifty.Rbtree.Rotate.{IsLinked}
use nifty.Rbtree.Turn.{around-turn, turn-IsFork, turn-IsRim, turn-IsLinked, turn_sentinel}
use nifty.Rbtree.Colour.{with_red-IsNode}
use nifty.Rbtree.Fixup.{AreApart, places_count, root-set_red, nil-set_red, around-fork}

-- The array holds the tree with the places `xs`, and the subtree `t` is in focus.
pub record IsAt (xs : List ℕ) (nodes : Nodes) (z : Rim) (t : Tree) : Type 0 where
  pub tree : IsTree nodes (above z) t
  pub rim : IsRim nodes (top t) z
  pub nil : (nodes 0).red ≡ false
  pub places : around z (order t) ≡ xs

pub fork-flip : (w : Side) (c : Bool) (i : ℕ) (x y : Tree) → fork (other w) c i y x ≡ fork w c i x y
fork-flip left c i x y = refl
fork-flip right c i x y = refl

module _ (xs : List ℕ) (nodes : Nodes) (w : Side) (c : Bool) (i : ℕ) (t s : Tree) (z : Rim) where
  -- The focus goes to the parent.
  pub go_up : IsAt xs nodes (rim w c i s z) t → IsAt xs nodes z (fork w c i t s)
  go_up a = record {
    tree =
        fork-IsTree w (record { positive = a.rim.0; node = a.rim.1; near = a.tree; far = a.rim.2 });
    rim = rw (top-fork w c i t s) a.rim.3;
    nil = a.nil;
    places = sym (around-fork w c c i t s z) ∙ a.places;
  }

  -- The focus goes to a child.
  pub go_down : IsAt xs nodes z (fork w c i t s) → IsAt xs nodes (rim w c i s z) t
  go_down a =
      let f = IsTree-fork nodes (above z) w c i t s a.tree in
      record {
        tree = f.near;
        rim = (f.positive, f.node, f.far, rw (← top-fork w c i t s) a.rim);
        nil = a.nil;
        places = around-fork w c c i t s z ∙ a.places;
      }

  count_at :
      (j : ℕ)
      → IsAt xs nodes z (fork w c i t s)
      → in_tree j t + one_if j i + in_tree j s + in_rim j z ≡ occurs j xs
  count_at j a =
      omega (arith, places_count xs z (fork w c i t s) j a.places, in_tree-fork j w c i t s)

  -- The node on top changes its colour.
  pub paint :
      (b : Bool)
      → AreApart xs
      → IsAt xs nodes z (fork w c i t s)
      → IsAt xs (set_red nodes i b) z (fork w b i t s)
  paint b apart a =
      let f = IsTree-fork nodes (above z) w c i t s a.tree in
      let nodes' = set_red nodes i b in
      let kept : (j : ℕ) → 0 < in_tree j t + in_tree j s + in_rim j z → nodes' j ≡ nodes j = λ j h.
        (let differ : j ≢ i = λ e. omega (arith, count_at j a, apart.once j, one_if_eq j i e) in
          ground arith) in
      let here : nodes' i ≡ record (nodes i) { red = b } = ground arith in
      record {
        tree = fork-IsTree w (record {
          positive = f.positive;
          node = rw here (with_red-IsNode w b f.node);
          near = IsTree-frame nodes nodes' i t (λ j h. kept j (omega arith)) f.near;
          far = IsTree-frame nodes nodes' i s (λ j h. kept j (omega arith)) f.far;
        });
        rim = rw (top-fork w b i t s) (
            IsRim-frame nodes nodes' i z (λ j h. kept j (omega arith)) (root-set_red nodes i b)
              (rw (← top-fork w c i t s) a.rim));
        nil = nil-set_red nodes i b f.positive ∙ a.nil;
        places = sym (around-fork w c b i t s z) ∙ around-fork w c c i t s z ∙ a.places;
      }

-- A rotation: the child `g` on the side `w` comes up.
module _ (xs : List ℕ) (apart : AreApart xs) (nodes : Nodes) (w : Side) (c c' : Bool) (g s : ℕ)
    (a b t : Tree) (z : Rim) (o : IsAt xs nodes z (fork w c s (fork w c' g a b) t)) where
  below : IsAt xs nodes (rim w c s t z) (fork w c' g a b)
  below = go_down xs nodes w c s (fork w c' g a b) t z o

  turn_count :
      (j : ℕ)
      → in_tree j a + one_if j g + in_tree j b + (in_tree j t + one_if j s + in_rim j z)
        ≡ occurs j xs
  turn_count j = omega (
    arith,
    places_count xs (rim w c s t z) (fork w c' g a b) j below.places,
    in_tree-fork j w c' g a b,
  )

  once :
      (j : ℕ) → in_tree j a + one_if j g + in_tree j b + (in_tree j t + one_if j s + in_rim j z) ≤ 1
  once j = omega (arith, turn_count j, apart.once j)

  no_nil : in_tree 0 a + one_if 0 g + in_tree 0 b + (in_tree 0 t + one_if 0 s + in_rim 0 z) ≡ 0
  no_nil = omega (arith, turn_count 0, apart.nil)

  grandson : IsFork nodes s w c' g a b
  grandson = IsTree-fork nodes s w c' g a b below.tree

  grandson_rim : IsRim nodes g (rim w c s t z)
  grandson_rim = rw (← top-fork w c' g a b) below.rim

  turned_fork : IsFork (rotate nodes (above z) s g) (above z) w c' g a (fork w c s b t)
  turned_fork = turn-IsFork nodes w c c' g s a b t z grandson grandson_rim once no_nil

  pub turn_links : IsLinked nodes (rotate nodes (above z) s g)
  turn_links = turn-IsLinked nodes w c c' g s a b t z grandson grandson_rim once no_nil

  pub turn_nil : 0 < top b → (rotate nodes (above z) s g 0).parent ≡ (nodes 0).parent
  turn_nil h = turn_sentinel nodes w c c' g s a b t z grandson grandson_rim once no_nil h

  pub turn : IsAt xs (rotate nodes (above z) s g) z (fork w c' g a (fork w c s b t))
  turn = record {
    tree = fork-IsTree w turned_fork;
    rim =
        rw (top-fork w c' g a (fork w c s b t))
          (turn-IsRim nodes w c c' g s a b t z grandson grandson_rim once no_nil);
    nil = turn_links.colours 0 ∙ o.nil;
    places = sym (around-turn w c c' c c' g s a b t z) ∙ below.places;
  }
