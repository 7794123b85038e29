-- ===== src/Rbtree/Fixup/Round.antt =====
-- insert_fixup: one round of the loop, and the loop.
use nifty.Base.{
  ℕ, zero, suc, ◌<◌, ◌≡◌, ◌≢◌, ◌∙◌, refl, sym, true, false, List, ◌==◌, if◌then◌else◌, arith,
}
use nifty.Rbtree.{
  Side, left, right, other, Nodes, child, rotate, side_of, lift_parent, rebuild, recolour,
  fixup_below, fixup_round,
}
use nifty.Rbtree.Shape.{
  Tree, leaf, node, top, Rim, rim, above, height, one_if_self, in_tree, fork, top-fork, ne_top,
}
use nifty.Rbtree.Turn.{son_side}
use nifty.Rbtree.Colour.{IsBalanced, IsSameContent, IsSameContent-trans}
use nifty.Rbtree.Fixup.{
  AreApart, IsFixing, places_count, lift_parent_lem, lifted-IsFixing, lifted-IsSameContent,
}
use nifty.Rbtree.Fixup.Recolour.{recoloured-IsFixing, recoloured-IsSameContent, recolour_lem}
use nifty.Rbtree.Fixup.Inner.{rebuild_inner, turned-IsFixing, turned_out-IsSameContent}

-- What a round of the loop leaves: the red node is nearer to the root.
pub record IsRound (xs : List ℕ) (nodes : Nodes) (z : Rim) (r : Nodes × ℕ) : Type 0 where
  pub rest : Rim
  pub count : ℕ
  pub tree : Tree
  pub fixing : IsFixing xs r.0 rest count tree
  pub here : r.1 ≡ top tree
  pub nearer : height rest < height z
  pub content : IsSameContent nodes r.0

outer_lem :
    (xs : List ℕ) (apart : AreApart xs) (nodes : Nodes) (w : Side) (p g n : ℕ) (t ts u : Tree)
    (z : Rim)
    → IsFixing xs nodes (rim w true p ts (rim w false g u z)) n t
    → IsBalanced true n u
    → IsRound xs nodes (rim w true p ts (rim w false g u z)) (lift_parent nodes p g, top t)
outer_lem xs apart nodes w p g n t ts u z f black =
    rw (lift_parent_lem xs apart nodes w p g n t ts u z f black) (record {
      rest = rim w false p (fork w true g ts u) z;
      count = n;
      tree = t;
      fixing = lifted-IsFixing xs apart nodes w p g n t ts u z f black;
      here = refl;
      nearer = omega arith;
      content = lifted-IsSameContent xs apart nodes w p g n t ts u z f black;
    })

black_top :
    (n : ℕ) (l : Tree) (i : ℕ) (r : Tree)
    → IsBalanced false n (node false l i r)
    → IsBalanced true n (node false l i r)
black_top zero l i r h = h
black_top (suc n) l i r h = h

module _ (xs : List ℕ) (apart : AreApart xs) (nodes : Nodes) where
  inner_lem :
      (v : Side) (p g x n : ℕ) (a b ts u : Tree) (z : Rim)
      → IsFixing xs nodes (rim v true p ts (rim (other v) false g u z)) n (fork v true x a b)
      → IsBalanced true n a
      → IsBalanced true n b
      → IsBalanced true n u
      → IsRound xs nodes (rim v true p ts (rim (other v) false g u z)) (rebuild nodes x p g v)
  inner_lem v p g x n a b ts u z f ha hb black =
      let f' = turned-IsFixing xs apart nodes v p g x n a b ts u z f ha hb in
      let o =
        outer_lem xs apart (rotate nodes g p x) (other v) x g n (fork v true p b ts) a u z f'
          black in
      let c = turned_out-IsSameContent xs apart nodes v p g x n a b ts u z f ha hb in
      rw (rebuild_inner xs apart nodes v p g x n a b ts u z f ha hb) (record {
        rest = o.rest;
        count = o.count;
        tree = o.tree;
        fixing = o.fixing;
        here = sym (top-fork v true p b ts) ∙ o.here;
        nearer = o.nearer;
        content = IsSameContent-trans c o.content;
      })

  -- The node `x` is not where the code looks for an inner grandchild.
  outer_not_inner :
      (w : Side) (p x n : ℕ) (l r ts u : Tree) (g : ℕ) (z : Rim)
      → IsFixing xs nodes (rim w true p ts (rim w false g u z)) n (node true l x r)
      → (x == child (nodes p) (other w)) ≡ false
  outer_not_inner w p x n l r ts u g z f =
      let count =
        places_count xs (rim w true p ts (rim w false g u z)) (node true l x r) x f.places in
      let apart_x : in_tree x ts ≡ 0 = omega (arith, count, apart.once x, one_if_self x) in
      let differ : x ≢ top ts = ne_top x ts f.tree.0 apart_x in ground (arith, f.rim.1.far)

  rebuild_lem :
      (v w : Side) (p x g n : ℕ) (l r ts u : Tree) (z : Rim)
      → IsFixing xs nodes (rim v true p ts (rim w false g u z)) n (node true l x r)
      → IsBalanced true n u
      → IsRound xs nodes (rim v true p ts (rim w false g u z)) (rebuild nodes x p g (other w))
  rebuild_lem left left p x g n l r ts u z f black =
      let e : rebuild nodes x p g right ≡ (lift_parent nodes p g, x) =
        unfold rebuild in rw (outer_not_inner left p x n l r ts u g z f) in
      rw e (outer_lem xs apart nodes left p g n (node true l x r) ts u z f black)
  rebuild_lem right right p x g n l r ts u z f black =
      let e : rebuild nodes x p g left ≡ (lift_parent nodes p g, x) =
        unfold rebuild in rw (outer_not_inner right p x n l r ts u g z f) in
      rw e (outer_lem xs apart nodes right p g n (node true l x r) ts u z f black)
  rebuild_lem left right p x g n l r ts u z f black =
      inner_lem left p g x n l r ts u z f f.hot.0 f.hot.1 black
  rebuild_lem right left p x g n l r ts u z f black =
      inner_lem right p g x n r l ts u z f f.hot.1 f.hot.0 black

  -- How the code finds the side of the uncle.
  uncle_side :
      (w : Side) (p g : ℕ) (u : Tree)
      → side_of (p == (nodes g).left) ≡ w
      → (if p == (nodes g).left then right else left) ≡ other w
  uncle_side left p g u h = ground (arith, h)
  uncle_side right p g u h = ground (arith, h)

  IsRound-at :
      (v w : Side) (p g n x : ℕ) (l r ts u : Tree) (z : Rim)
      → IsFixing xs nodes (rim v true p ts (rim w false g u z)) n (node true l x r)
      → IsRound xs nodes (rim v true p ts (rim w false g u z)) (
          if (nodes (top u)).red
          then (recolour nodes (top u) p g, g)
          else rebuild nodes x p g (other w))
  IsRound-at v w p g n x l r ts leaf z f =
      rw f.nil (rebuild_lem v w p x g n l r ts leaf z f f.balanced.2.0)
  IsRound-at v w p g n x l r ts (node true ul y ur) z f =
      rw (f.rim.3.2.1.red, recolour_lem xs apart nodes v w p g y n (node true l x r) ts ul ur z f)
        (record {
          rest = z;
          count = suc n;
          tree = fork w true g (fork v false p (node true l x r) ts) (node false ul y ur);
          fixing = recoloured-IsFixing xs apart nodes v w p g y n (node true l x r) ts ul ur z f;
          here = sym (top-fork w true g (fork v false p (node true l x r) ts) (node false ul y ur));
          nearer = omega arith;
          content =
              recoloured-IsSameContent xs apart nodes v w p g y n (node true l x r) ts ul ur z f;
        })
  IsRound-at v w p g n x l r ts (node false ul y ur) z f =
      rw f.rim.3.2.1.red (
        rebuild_lem v w p x g n l r ts (node false ul y ur) z f
          (black_top n ul y ur f.balanced.2.0))

  below_lem :
      (v w : Side) (p g n x : ℕ) (l r ts u : Tree) (z : Rim)
      → IsFixing xs nodes (rim v true p ts (rim w false g u z)) n (node true l x r)
      → IsRound xs nodes (rim v true p ts (rim w false g u z)) (fixup_below nodes x p g (other w))
  unfolding fixup_below
  below_lem v w p g n x l r ts u z f = rw f.rim.3.1.far (IsRound-at v w p g n x l r ts u z f)

  pub fixup_round_lem :
      (v w : Side) (p g n x : ℕ) (l r ts u : Tree) (z : Rim)
      → IsFixing xs nodes (rim v true p ts (rim w false g u z)) n (node true l x r)
      → IsRound xs nodes (rim v true p ts (rim w false g u z)) (fixup_round nodes x)
  unfolding fixup_round
  fixup_round_lem v w p g n x l r ts u z f =
      let count =
        places_count xs (rim v true p ts (rim w false g u z)) (node true l x r) p f.places in
      let apart_p : in_tree p u ≡ 0 = omega (arith, count, apart.once p, one_if_self p) in
      let side = son_side nodes w false p g (above z) u f.rim.3.1 f.rim.0 apart_p in
      rw (f.tree.1.parent, f.rim.1.parent, uncle_side w p g u side)
        (below_lem v w p g n x l r ts u z f)
