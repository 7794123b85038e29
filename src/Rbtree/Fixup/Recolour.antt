-- ===== src/Rbtree/Fixup/Recolour.antt =====
-- insert_fixup, the branch of a red uncle: the red node moves up two places.
use nifty.Base.{ℕ, suc, ◌+◌, ◌≤◌, ◌<◌, ◌≡◌, ◌≢◌, ◌∙◌, refl, sym, true, false, List, arith}
use nifty.Rbtree.{Side, Nodes, set_red, root_of, recolour}
use nifty.Rbtree.Shape.{
  Tree, node, order, Rim, rim, above, one_if, one_if_self, one_if_eq, in_tree, in_rim, IsTree-frame,
  IsRim-frame, fork, fork-IsTree, top-fork, IsTree,
}
use nifty.Rbtree.Colour.{
  fork-IsHot, fork-IsBalanced, IsHot-weaken, IsBalanced-weaken, IsSameContent, IsSameContent-trans,
  set_red-IsSameContent, with_red-IsNode,
}
use nifty.Rbtree.Fixup.{
  AreApart, IsFixing, places_count, root-set_red, nil-set_red, around-fork, around_cong,
}

module _ (xs : List ℕ) (apart : AreApart xs) (nodes : Nodes) (v w : Side) (p g y n : ℕ)
    (t s ul ur : Tree) (z : Rim)
    (f : IsFixing xs nodes (rim v true p s (rim w false g (node true ul y ur) z)) n t) where
  abbrev all_count : ℕ → ℕ
  all_count j =
      in_tree j t
      + (in_tree j s
          + one_if j p
          + (in_tree j ul + one_if j y + in_tree j ur + one_if j g + in_rim j z))

  once : (j : ℕ) → all_count j ≤ 1
  once j = omega (
    arith,
    places_count xs (rim v true p s (rim w false g (node true ul y ur) z)) t j f.places,
    apart.once j,
  )

  abbrev pub recoloured : Nodes
  recoloured = set_red (set_red (set_red nodes y false) p false) g true

  pg : p ≢ g
  pg e = omega (arith, once p, one_if_self p, one_if_eq p g e)

  yp : y ≢ p
  yp e = omega (arith, once y, one_if_self y, one_if_eq y p e)

  yg : y ≢ g
  yg e = omega (arith, once y, one_if_self y, one_if_eq y g e)

  rest :
      (j : ℕ)
      → 0 < in_tree j t + in_tree j s + in_tree j ul + in_tree j ur + in_rim j z
      → recoloured j ≡ nodes j
  rest j h =
      let jp : j ≢ p = λ e. omega (arith, once j, one_if_eq j p e) in
      let jg : j ≢ g = λ e. omega (arith, once j, one_if_eq j g e) in
      let jy : j ≢ y = λ e. omega (arith, once j, one_if_eq j y e) in ground arith

  at_p : recoloured p ≡ record (nodes p) { red = false }
  at_p = ground (arith, pg, yp)

  at_g : recoloured g ≡ record (nodes g) { red = true }
  at_g = ground (arith, pg, yg)

  at_y : recoloured y ≡ record (nodes y) { red = false }
  at_y = ground (arith, yp, yg)

  parent-IsTree : IsTree recoloured g (fork v false p t s)
  parent-IsTree = fork-IsTree v (record {
    positive = f.rim.0;
    node = rw at_p (with_red-IsNode v false f.rim.1);
    near = IsTree-frame nodes recoloured p t (λ j h. rest j (omega arith)) f.tree;
    far = IsTree-frame nodes recoloured p s (λ j h. rest j (omega arith)) f.rim.2;
  })

  uncle-IsTree : IsTree recoloured g (node false ul y ur)
  uncle-IsTree = (
    f.rim.3.2.0,
    rw at_y (with_red-IsNode Side.left false f.rim.3.2.1),
    IsTree-frame nodes recoloured y ul (λ j h. rest j (omega arith)) f.rim.3.2.2,
    IsTree-frame nodes recoloured y ur (λ j h. rest j (omega arith)) f.rim.3.2.3,
  )

  root-recoloured : root_of recoloured ≡ root_of nodes
  root-recoloured =
      root-set_red (set_red (set_red nodes y false) p false) g true
      ∙ root-set_red (set_red nodes y false) p false
      ∙ root-set_red nodes y false

  pub recoloured-IsSameContent : IsSameContent nodes recoloured
  recoloured-IsSameContent = IsSameContent-trans (set_red-IsSameContent nodes y false) (
      IsSameContent-trans (set_red-IsSameContent (set_red nodes y false) p false)
        (set_red-IsSameContent (set_red (set_red nodes y false) p false) g true))

  grand-IsNode :
      IsTree recoloured (above z) (fork w true g (fork v false p t s) (node false ul y ur))
  grand-IsNode = fork-IsTree w (record {
    positive = f.rim.3.0;
    node = rw (at_g, top-fork v false p t s) (with_red-IsNode w true f.rim.3.1);
    near = parent-IsTree;
    far = uncle-IsTree;
  })

  pub recoloured-IsFixing :
      IsFixing xs recoloured z (suc n) (fork w true g (fork v false p t s) (node false ul y ur))
  recoloured-IsFixing = record {
    tree = grand-IsNode;
    rim =
        rw (top-fork w true g (fork v false p t s) (node false ul y ur)) (
          IsRim-frame nodes recoloured g z (λ j h. rest j (omega arith)) root-recoloured f.rim.3.3);
    hot =
        fork-IsHot w (suc n) g (fork v false p t s) (node false ul y ur)
          (fork-IsBalanced v true n p t s (IsHot-weaken n t f.hot)
            (IsBalanced-weaken n s f.balanced.0))
          (IsBalanced-weaken n ul f.balanced.2.0.1, IsBalanced-weaken n ur f.balanced.2.0.2);
    balanced = f.balanced.2.1;
    nil =
        nil-set_red (set_red (set_red nodes y false) p false) g true f.rim.3.0
        ∙ nil-set_red (set_red nodes y false) p false f.rim.0
        ∙ nil-set_red nodes y false f.rim.3.2.0
        ∙ f.nil;
    places =
        sym (around-fork w false true g (fork v false p t s) (node false ul y ur) z)
        ∙ around_cong w false g (node false ul y ur) (node true ul y ur) z
            (order (fork v false p t s)) refl
        ∙ sym (around-fork v true false p t s (rim w false g (node true ul y ur) z))
        ∙ f.places;
  }

  pub recolour_lem : recolour nodes y p g ≡ recoloured
  unfolding recolour
  recolour_lem = refl
