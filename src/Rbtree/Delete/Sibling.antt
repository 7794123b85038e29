-- ===== src/Rbtree/Delete/Sibling.antt =====
-- delete_fixup: a red sibling is lifted, so that the sibling is black.
use nifty.Base.{
  ℕ, zero, suc, ◌≤◌, ◌<◌, ◌≡◌, ◌∙◌, ◌⊎◌, inl, inr, refl, Bool, true, false, List, arith,
}
use nifty.Rbtree.{Side, left, right, other, Nodes, child, set_red, rotate}
use nifty.Rbtree.Shape.{
  Tree, leaf, node, top, Rim, rim, above, height, IsTree, fork, IsTree-fork, top-fork,
}
use nifty.Rbtree.Colour.{
  IsBalanced, IsBalancedRim, IsBalanced-weaken, IsSameContent, IsSameContent-trans,
  IsLinked-IsSameContent, set_red-IsSameContent,
}
use nifty.Rbtree.Rotate.{IsLinked}
use nifty.Rbtree.Fixup.{AreApart}
use nifty.Rbtree.Delete.{lift_sibling}
use nifty.Rbtree.Delete.Moves.{IsAt, fork-flip, go_up, go_down, paint, turn, turn_nil, turn_links}

-- A subtree that is one black node short on each way, and right once its top is black.
abbrev pub IsSunk : ℕ → Tree → Type 0
IsSunk n leaf = n ≡ 0
IsSunk n (node true l i r) = IsBalanced false n l × IsBalanced false n r
IsSunk zero (node false l i r) = ⊥
IsSunk (suc n) (node false l i r) = IsBalanced false n l × IsBalanced false n r

-- The loop of delete_fixup, with `t` below `x`: the rest of the tree has one black node more.
pub record IsShort (xs : List ℕ) (nodes : Nodes) (z : Rim) (n : ℕ) (t : Tree) : Type 0 where
  pub at : IsAt xs nodes z t
  pub sunk : IsSunk n t
  pub balanced : IsBalancedRim (suc n) z
  pub hangs : (nodes (top t)).parent ≡ above z

nil_parent-set_red :
    (nodes : Nodes) (i : ℕ) (b : Bool) → (set_red nodes i b 0).parent ≡ (nodes 0).parent
nil_parent-set_red nodes i b = ground arith

-- The parent of a subtree's top; the sentinel has one too.
pub hangs_again :
    (nodes nodes' : Nodes) (p : ℕ) (t : Tree)
    → IsTree nodes' p t
    → (nodes (top t)).parent ≡ p
    → (nodes' 0).parent ≡ (nodes 0).parent
    → (nodes' (top t)).parent ≡ p
hangs_again nodes nodes' p leaf h e s = s ∙ e
hangs_again nodes nodes' p (node c l i r) h e s = h.1.parent

-- A red sibling with its children; below it, the child on the side of `x` takes its place.
module _ (xs : List ℕ) (apart : AreApart xs) (nodes : Nodes) (v : Side) (p w n : ℕ) (t a b : Tree)
    (z : Rim) (d : IsShort xs nodes (rim v false p (fork v true w a b) z) n t)
    (ba : IsBalanced true (suc n) a) (bb : IsBalanced true (suc n) b) where
  abbrev painted : Nodes
  painted = set_red (set_red nodes w false) p true

  sibling : IsAt xs nodes (rim (other v) false p t z) (fork v true w a b)
  sibling = go_down xs nodes (other v) false p (fork v true w a b) t z (
      rw (fork-flip v false p t (fork v true w a b))
        (go_up xs nodes v false p t (fork v true w a b) z d.at))

  before : IsAt xs painted z (fork (other v) true p (fork (other v) false w b a) t)
  before = rw (fork-flip v false w a b) (
      paint xs (set_red nodes w false) (other v) false p (fork v false w a b) t z true apart (
        go_up xs (set_red nodes w false) (other v) false p (fork v false w a b) t z
          (paint xs nodes v true w a b (rim (other v) false p t z) false apart sibling)))

  abbrev pub sibling_lifted : Nodes
  sibling_lifted = rotate painted (above z) p w

  after : IsAt xs sibling_lifted z (fork v false w (fork v true p t a) b)
  after =
      rw (← fork-flip v true p t a, ← fork-flip v false w (fork (other v) true p a t) b)
        (turn xs apart painted (other v) true false w p b a t z before)

  pub lifted-IsAt : IsAt xs sibling_lifted (rim v true p a (rim v false w b z)) t
  lifted-IsAt =
      go_down xs sibling_lifted v true p t a (rim v false w b z)
        (go_down xs sibling_lifted v false w (fork v true p t a) b z after)

  pub lifted_links : IsLinked painted sibling_lifted
  lifted_links = turn_links xs apart painted (other v) true false w p b a t z before

  pub lifted-IsSameContent : IsSameContent nodes sibling_lifted
  lifted-IsSameContent = IsSameContent-trans (set_red-IsSameContent nodes w false) (
      IsSameContent-trans (set_red-IsSameContent (set_red nodes w false) p true)
        (IsLinked-IsSameContent lifted_links))

  lifted_nil : 0 < top a → (sibling_lifted 0).parent ≡ (nodes 0).parent
  lifted_nil h =
      turn_nil xs apart painted (other v) true false w p b a t z before h
      ∙ nil_parent-set_red (set_red nodes w false) p true
      ∙ nil_parent-set_red nodes w false

  pub lifted-IsShort :
      0 < top a → IsShort xs sibling_lifted (rim v true p a (rim v false w b z)) n t
  lifted-IsShort h = record {
    at = lifted-IsAt;
    sunk = d.sunk;
    balanced = (ba, refl, (IsBalanced-weaken (suc n) b bb, d.balanced.1));
    hangs = hangs_again nodes sibling_lifted p t lifted-IsAt.tree d.hangs (lifted_nil h);
  }

  pub lift_sibling_red : lift_sibling nodes p (other v) ≡ sibling_lifted
  unfolding lift_sibling
  lift_sibling_red =
      let there : child (nodes p) (other v) ≡ w = d.at.rim.1.far ∙ top-fork v true w a b in
      let red : (nodes w).red ≡ true = (IsTree-fork nodes p v true w a b d.at.rim.2).node.red in
      let up : (painted p).parent ≡ above z =
        (IsTree-fork painted (above z) (other v) true p (fork (other v) false w b a) t
          before.tree).node.parent in
      rw (there, red, up)

-- The sibling is black, and has children.
pub record IsBeside (xs : List ℕ) (nodes nodes' : Nodes) (v : Side) (p n : ℕ) (t : Tree) (m : ℕ)
    : Type 0 where
  pub colour : Bool
  pub sibling : ℕ
  pub near : Tree
  pub far : Tree
  pub rest : Rim
  pub short : IsShort xs nodes' (rim v colour p (fork v false sibling near far) rest) n t
  pub near_balanced : IsBalanced false n near
  pub far_balanced : IsBalanced false n far
  pub content : IsSameContent nodes nodes'
  pub nearer : (colour ≡ true) ⊎ (height rest ≤ m)

IsBeside-black :
    (xs : List ℕ) (nodes nodes' : Nodes) (v : Side) (c : Bool) (p n : ℕ) (t s : Tree) (z : Rim)
    → IsShort xs nodes' (rim v c p s z) n t
    → IsBalanced true (suc n) s
    → IsSameContent nodes nodes'
    → (m : ℕ) → (c ≡ true) ⊎ (height z ≤ m)
    → IsBeside xs nodes nodes' v p n t m
IsBeside-black xs nodes nodes' v c p n t leaf z d b same m near = absurd (omega (arith, b))
IsBeside-black xs nodes nodes' v c p n t (node true l w r) z d b same m near = cc (b.0)
IsBeside-black xs nodes nodes' left c p n t (node false l w r) z d b same m near = record {
  colour = c;
  sibling = w;
  near = l;
  far = r;
  rest = z;
  short = d;
  near_balanced = b.0;
  far_balanced = b.1;
  content = same;
  nearer = near;
}
IsBeside-black xs nodes nodes' right c p n t (node false l w r) z d b same m near = record {
  colour = c;
  sibling = w;
  near = r;
  far = l;
  rest = z;
  short = d;
  near_balanced = b.1;
  far_balanced = b.0;
  content = same;
  nearer = near;
}

sibling_nonempty :
    (n : ℕ) (t : Tree) (nodes : Nodes) (p : ℕ)
    → IsTree nodes p t
    → IsBalanced true (suc n) t
    → 0 < top t
sibling_nonempty n leaf nodes p h b = absurd (omega (arith, b))
sibling_nonempty n (node c l i r) nodes p h b = h.0

-- After lift_sibling the sibling is black, whatever it was.
IsBeside-red :
    (xs : List ℕ) (apart : AreApart xs) (nodes : Nodes) (v : Side) (p w n : ℕ) (t a b : Tree)
    (z : Rim)
    → IsShort xs nodes (rim v false p (fork v true w a b) z) n t
    → IsBalanced true (suc n) a
    → IsBalanced true (suc n) b
    → IsBeside xs nodes (lift_sibling nodes p (other v)) v p n t (height z)
IsBeside-red xs apart nodes v p w n t a b z d ba bb =
    let f = IsTree-fork nodes p v true w a b d.at.rim.2 in
    rw (lift_sibling_red xs apart nodes v p w n t a b z d ba bb) (
      IsBeside-black xs nodes (rotate (set_red (set_red nodes w false) p true) (above z) p w) v true
        p n t a (rim v false w b z)
        (lifted-IsShort xs apart nodes v p w n t a b z d ba bb
          (sibling_nonempty n a nodes w f.near ba))
        ba (lifted-IsSameContent xs apart nodes v p w n t a b z d ba bb) (height z) (inl refl))

-- A black sibling stays.
black_kept :
    (xs : List ℕ) (nodes : Nodes) (v : Side) (c : Bool) (p n : ℕ) (t l : Tree) (w : ℕ) (r : Tree)
    (z : Rim)
    → IsShort xs nodes (rim v c p (node false l w r) z) n t
    → IsBalanced true (suc n) (node false l w r)
    → IsBeside xs nodes (lift_sibling nodes p (other v)) v p n t (height z)
unfolding lift_sibling
black_kept xs nodes v c p n t l w r z d b =
    rw (d.at.rim.1.far, d.at.rim.2.1.red)
      (IsBeside-black xs nodes nodes v c p n t (node false l w r) z d b
        (record { contents = λ j. (refl, refl) }) (height z) (inr (omega arith)))

pub lift_sibling_lem :
    (xs : List ℕ) (apart : AreApart xs) (nodes : Nodes) (v : Side) (c : Bool) (p n : ℕ) (t s : Tree)
    (z : Rim)
    → IsShort xs nodes (rim v c p s z) n t
    → IsBeside xs nodes (lift_sibling nodes p (other v)) v p n t (height z)
lift_sibling_lem xs apart nodes v true p n t leaf z d = absurd (omega (arith, d.balanced.0))
lift_sibling_lem xs apart nodes v true p n t (node true l w r) z d = cc (d.balanced.0.0)
lift_sibling_lem xs apart nodes v true p n t (node false l w r) z d =
    black_kept xs nodes v true p n t l w r z d d.balanced.0
lift_sibling_lem xs apart nodes v false p n t leaf z d = absurd (omega (arith, d.balanced.0))
lift_sibling_lem xs apart nodes left false p n t (node true l w r) z d =
    IsBeside-red xs apart nodes left p w n t l r z d d.balanced.0.1 d.balanced.0.2
lift_sibling_lem xs apart nodes right false p n t (node true l w r) z d =
    IsBeside-red xs apart nodes right p w n t r l z d d.balanced.0.2 d.balanced.0.1
lift_sibling_lem xs apart nodes v false p n t (node false l w r) z d =
    black_kept xs nodes v false p n t l w r z d d.balanced.0
