-- ===== src/Rbtree/Fixup/Loop.antt =====
-- insert_fixup: its loop ends, and leaves a red-black tree with the nodes in their order.
use nifty.Base.{
  ℕ, zero, suc, ◌+◌, ◌≤◌, ◌<◌, ◌≡◌, ◌≢◌, ◌∙◌, refl, ap, true, false, Bool, List, ◌==◌, arith,
}
use nifty.Rbtree.{Side, left, Nodes, set_red, root_of, fixup_round, fixup_loop, insert_fixup}
use nifty.Rbtree.Shape.{
  Tree, leaf, node, top, order, Rim, none, rim, above, height, around, occurs, one_if, one_if_self,
  one_if_eq, in_tree, in_rim, occurs-order, IsTree, IsRim, IsTree-frame, fork, fork-IsTree,
  top-fork,
}
use nifty.Rbtree.Colour.{
  IsBalanced, IsBalancedRim, is_red_above, IsBalanced-weaken, fork-IsBalanced, fork_red-IsBalanced,
  IsSameContent, IsSameContent-trans, set_red-IsSameContent, with_red-IsNode,
}
use nifty.Rbtree.Fixup.{AreApart, IsFixing, places_count, around-fork, nil-set_red, root-set_red}
use nifty.Rbtree.Fixup.Round.{fixup_round_lem}

-- The array holds a red-black tree, whose nodes have the places `xs` in the order of the tree.
pub record IsRedBlack (xs : List ℕ) (nodes : Nodes) : Type 0 where
  pub tree : Tree
  pub black : ℕ
  pub links : IsTree nodes 0 tree
  pub root : root_of nodes ≡ top tree
  pub balanced : IsBalanced true black tree
  pub nil : (nodes 0).red ≡ false
  pub places : order tree ≡ xs

-- What the loop leaves: at most the root may still have to become black.
record IsFixed (xs : List ℕ) (nodes : Nodes) : Type 0 where
  colour : Bool
  near : Tree
  here : ℕ
  far : Tree
  black : ℕ
  links : IsTree nodes 0 (node colour near here far)
  root : root_of nodes ≡ here
  balanced : IsBalanced true black (node false near here far)
  nil : (nodes 0).red ≡ false
  places : order (node colour near here far) ≡ xs

-- A subtree within what surrounds it, as one tree.
pub record IsWhole (js : List ℕ) (nodes : Nodes) : Type 0 where
  pub tree : Tree
  pub black : ℕ
  pub links : IsTree nodes 0 tree
  pub root : root_of nodes ≡ top tree
  pub balanced : IsBalanced true black tree
  pub places : order tree ≡ js

pub whole :
    (nodes : Nodes) (z : Rim) (n : ℕ) (t : Tree)
    → IsTree nodes (above z) t
    → IsRim nodes (top t) z
    → IsBalanced (is_red_above z) n t
    → IsBalancedRim n z
    → IsWhole (around z (order t)) nodes
whole nodes none n t h r b br = record {
  tree = t;
  black = n;
  links = h;
  root = r;
  balanced = b;
  places = refl;
}
whole nodes (rim w true i s z) n t h r b br =
    let t' = fork w true i t s in
    let h' : IsTree nodes (above z) t' =
      fork-IsTree w (record { positive = r.0; node = r.1; near = h; far = r.2 }) in
    let r' : IsRim nodes (top t') z = rw (top-fork w true i t s) r.3 in
    let b' : IsBalanced (is_red_above z) n t' = rw br.1 (fork_red-IsBalanced w n i t s b br.0) in
    let o = whole nodes z n t' h' r' b' br.2 in rw (around-fork w true true i t s z) o
whole nodes (rim w false i s z) n t h r b br =
    let t' = fork w false i t s in
    let h' : IsTree nodes (above z) t' =
      fork-IsTree w (record { positive = r.0; node = r.1; near = h; far = r.2 }) in
    let r' : IsRim nodes (top t') z = rw (top-fork w false i t s) r.3 in
    let o =
      whole nodes z (suc n) t' h' r' (fork-IsBalanced w (is_red_above z) n i t s b br.0) br.1 in
    rw (around-fork w false false i t s z) o

-- Below the root, the root is another node.
pub root_in_rim :
    (nodes : Nodes) (h : ℕ) (w : Side) (c : Bool) (i : ℕ) (s : Tree) (z : Rim)
    → IsRim nodes h (rim w c i s z)
    → 0 < in_rim (root_of nodes) (rim w c i s z)
root_in_rim nodes h w c i s none r = omega (arith, one_if_eq (root_of nodes) i r.3)
root_in_rim nodes h w c i s (rim w' c' i' s' z) r =
    omega (arith, root_in_rim nodes i w' c' i' s' z r.3)

IsFixed-by :
    (xs : List ℕ) (nodes : Nodes) (x n : ℕ) (t : Tree)
    → 0 < occurs x xs
    → (nodes 0).red ≡ false
    → IsTree nodes 0 t
    → root_of nodes ≡ top t
    → IsBalanced true n t
    → order t ≡ xs
    → IsFixed xs nodes
IsFixed-by xs nodes x n leaf pos nil h r b e =
    absurd (omega (arith, ap (occurs x) e, occurs-order x leaf, pos))
IsFixed-by xs nodes x n (node true l i s) pos nil h r b e = cc (b.0)
IsFixed-by xs nodes x n (node false l i s) pos nil h r b e = record {
  colour = false;
  near = l;
  here = i;
  far = s;
  black = n;
  links = h;
  root = r;
  balanced = b;
  nil = nil;
  places = e;
}

module _ (xs : List ℕ) (apart : AreApart xs) where
  not_root :
      (nodes : Nodes) (v : Side) (c : Bool) (p n x : ℕ) (l r s : Tree) (z : Rim)
      → IsFixing xs nodes (rim v c p s z) n (node true l x r)
      → (x == root_of nodes) ≡ false
  not_root nodes v c p n x l r s z f =
      let count = places_count xs (rim v c p s z) (node true l x r) x f.places in
      let below = root_in_rim nodes x v c p s z f.rim in
      let differ : x ≢ root_of nodes = λ e. omega (
        arith,
        count,
        apart.once x,
        one_if_self x,
        below,
        ap (λ (k : ℕ). in_rim k (rim v c p s z)) e,
      ) in
      ground arith

  -- The loop leaves off below a black node.
  below_black :
      (nodes : Nodes) (v : Side) (p n x : ℕ) (l r s : Tree) (z : Rim)
      → IsFixing xs nodes (rim v false p s z) n (node true l x r)
      → IsFixed xs nodes
  below_black nodes v p n x l r s z f =
      let count = places_count xs (rim v false p s z) (node true l x r) x f.places in
      let o =
        whole nodes (rim v false p s z) n (node true l x r) f.tree f.rim (refl, f.hot.0, f.hot.1)
          f.balanced in
      IsFixed-by xs nodes x o.black o.tree (omega (arith, count, one_if_self x)) f.nil o.links
        o.root o.balanced (o.places ∙ f.places)

  -- The loop leaves off at the root.
  at_root :
      (nodes : Nodes) (n x : ℕ) (l r : Tree)
      → IsFixing xs nodes none n (node true l x r)
      → IsFixed xs nodes
  at_root nodes n x l r f = record {
    colour = true;
    near = l;
    here = x;
    far = r;
    black = suc n;
    links = f.tree;
    root = f.rim;
    balanced = (IsBalanced-weaken n l f.hot.0, IsBalanced-weaken n r f.hot.1);
    nil = f.nil;
    places = f.places;
  }

  loop_lem :
      (fuel : ℕ) (nodes : Nodes) (z : Rim) (n : ℕ) (t : Tree)
      → IsFixing xs nodes z n t
      → height z < fuel
      → IsFixed xs (fixup_loop fuel nodes (top t))
        × IsSameContent nodes (fixup_loop fuel nodes (top t))
  unfolding fixup_loop
  loop_lem zero nodes z n t f lt = absurd (omega arith)
  loop_lem (suc fuel) nodes z n leaf f lt = absurd f.hot
  loop_lem (suc fuel) nodes z n (node false l x r) f lt = absurd f.hot
  loop_lem (suc fuel) nodes none n (node true l x r) f lt =
      let same : (x == root_of nodes) ≡ true = ground (arith, f.rim) in
      rw same (at_root nodes n x l r f, record { contents = λ j. (refl, refl) })
  loop_lem (suc fuel) nodes (rim v false p s z) n (node true l x r) f lt =
      rw (not_root nodes v false p n x l r s z f, f.tree.1.parent, f.rim.1.red)
        (below_black nodes v p n x l r s z f, record { contents = λ j. (refl, refl) })
  loop_lem (suc fuel) nodes (rim v true p s none) n (node true l x r) f lt = cc (f.balanced.1)
  loop_lem (suc fuel) nodes (rim v true p s (rim w true g u z)) n (node true l x r) f lt =
      cc (f.balanced.1)
  loop_lem (suc fuel) nodes (rim v true p s (rim w false g u z)) n (node true l x r) f lt =
      let o = fixup_round_lem xs apart nodes v w p g n x l r s u z f in
      let (fixed, content) =
        loop_lem fuel (fixup_round nodes x).0 o.rest o.count o.tree o.fixing
          (omega (arith, o.nearer)) in
      rw
        (
          not_root nodes v true p n x l r s (rim w false g u z) f,
          f.tree.1.parent,
          f.rim.1.red,
          o.here,
        )
        (fixed, IsSameContent-trans o.content content)

  -- The root becomes black, if it is not.
  blacken : (nodes : Nodes) → IsFixed xs nodes → IsRedBlack xs (set_red nodes (root_of nodes) false)
  blacken nodes o =
      let count : (j : ℕ) → in_tree j o.near + one_if j o.here + in_tree j o.far ≤ 1 = λ j. omega (
        arith,
        apart.once j,
        occurs-order j (node o.colour o.near o.here o.far),
        ap (occurs j) o.places,
      ) in
      let nodes' = set_red nodes o.here false in
      let kept : (j : ℕ) → 0 < in_tree j o.near + in_tree j o.far → nodes' j ≡ nodes j = λ j h.
        (let differ : j ≢ o.here = λ e. omega (arith, count j, one_if_eq j o.here e) in
          ground arith) in
      let here' : nodes' o.here ≡ record (nodes o.here) { red = false } = ground arith in
      rw o.root (record {
        tree = node false o.near o.here o.far;
        black = o.black;
        links = (
          o.links.0,
          rw here' (with_red-IsNode left false o.links.1),
          IsTree-frame nodes nodes' o.here o.near (λ j h. kept j (omega arith)) o.links.2,
          IsTree-frame nodes nodes' o.here o.far (λ j h. kept j (omega arith)) o.links.3,
        );
        root = root-set_red nodes o.here false ∙ o.root;
        balanced = o.balanced;
        nil = nil-set_red nodes o.here false o.links.0 ∙ o.nil;
        places = o.places;
      })

  pub insert_fixup_lem :
      (fuel : ℕ) (nodes : Nodes) (z : Rim) (n : ℕ) (t : Tree)
      → IsFixing xs nodes z n t
      → height z < fuel
      → IsRedBlack xs (insert_fixup fuel nodes (top t))
        × IsSameContent nodes (insert_fixup fuel nodes (top t))
  unfolding insert_fixup
  insert_fixup_lem fuel nodes z n t f lt =
      let (fixed, content) = loop_lem fuel nodes z n t f lt in
      let nodes' = fixup_loop fuel nodes (top t) in
      (
        blacken nodes' fixed,
        IsSameContent-trans content (set_red-IsSameContent nodes' (root_of nodes') false),
      )
