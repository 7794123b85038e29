-- ===== src/Rbtree/Delete/Ending.antt =====
-- delete_fixup, with a black sibling that has a red child: the rotations that end the loop.
use nifty.Base.{ℕ, suc, ◌≡◌, ◌∙◌, refl, ap₂, Bool, true, false, List}
use nifty.Rbtree.{Side, left, right, other, Nodes, child, set_red, rotate}
use nifty.Rbtree.Shape.{Tree, top, Rim, rim, above, fork, IsFork, IsTree-fork, top-fork}
use nifty.Rbtree.Colour.{
  IsBalanced, IsBalancedRim, is_red_above, IsBalanced-weaken, fork-IsBalanced, IsSameContent,
  IsSameContent-trans, IsLinked-IsSameContent, set_red-IsSameContent,
}
use nifty.Rbtree.Fixup.{AreApart}
use nifty.Rbtree.Fixup.Inner.{other-other}
use nifty.Rbtree.Delete.{lift_nephew, lift_coloured, lift_last}
use nifty.Rbtree.Delete.Moves.{IsAt, fork-flip, go_up, go_down, paint, turn, turn_links}
use nifty.Rbtree.Delete.Nephews.{over}

-- The tree is balanced again, seen from some subtree.
pub record IsMended (xs : List ℕ) (nodes nodes' : Nodes) : Type 0 where
  pub rest : Rim
  pub count : ℕ
  pub tree : Tree
  pub at : IsAt xs nodes' rest tree
  pub balanced : IsBalanced (is_red_above rest) count tree
  pub rim : IsBalancedRim count rest
  pub content : IsSameContent nodes nodes'

crown-IsBalanced :
    (w : Side) (c r : Bool) (n i : ℕ) (x y : Tree)
    → (c ≡ true → r ≡ false)
    → ((q : Bool) → IsBalanced q (suc n) x)
    → ((q : Bool) → IsBalanced q (suc n) y)
    → IsBalanced r (suc (over c n)) (fork w c i x y)
crown-IsBalanced left true r n i x y e a b = (e refl, a true, b true)
crown-IsBalanced right true r n i x y e a b = (e refl, b true, a true)
crown-IsBalanced left false r n i x y e a b = (a false, b false)
crown-IsBalanced right false r n i x y e a b = (b false, a false)

module _ (xs : List ℕ) (apart : AreApart xs) (nodes : Nodes) (v : Side) (c : Bool) (p w y n : ℕ)
    (t a b₁ b₂ : Tree) (z : Rim)
    (at : IsAt xs nodes (rim (other v) c p t z) (fork v false w a (fork v true y b₁ b₂))) where
  -- The sibling takes the colour of the parent, which becomes black, and so does the red nephew.
  abbrev nodes₁ : Nodes
  nodes₁ = set_red nodes w c

  abbrev nodes₂ : Nodes
  nodes₂ = set_red nodes₁ p false

  abbrev nodes₃ : Nodes
  nodes₃ = set_red nodes₂ y false

  stage₂ : IsAt xs nodes₂ z (fork (other v) false p (fork v c w a (fork v true y b₁ b₂)) t)
  stage₂ = paint xs nodes₁ (other v) c p (fork v c w a (fork v true y b₁ b₂)) t z false apart (
      go_up xs nodes₁ (other v) c p (fork v c w a (fork v true y b₁ b₂)) t z
        (paint xs nodes v false w a (fork v true y b₁ b₂) (rim (other v) c p t z) c apart at))

  inside₂ : IsAt xs nodes₂ (rim (other v) false p t z) (fork (other v) c w (fork v true y b₁ b₂) a)
  inside₂ =
      rw (fork-flip v c w a (fork v true y b₁ b₂))
        (go_down xs nodes₂ (other v) false p (fork v c w a (fork v true y b₁ b₂)) t z stage₂)

  stage₃ : IsAt xs nodes₃ z (fork (other v) false p (fork (other v) c w (fork v false y b₁ b₂) a) t)
  stage₃ = go_up xs nodes₃ (other v) false p (fork (other v) c w (fork v false y b₁ b₂) a) t z (
      go_up xs nodes₃ (other v) c w (fork v false y b₁ b₂) a (rim (other v) false p t z) (
        paint xs nodes₂ v true y b₁ b₂ (rim (other v) c w a (rim (other v) false p t z)) false apart
          (go_down xs nodes₂ (other v) c w (fork v true y b₁ b₂) a (rim (other v) false p t z)
            inside₂)))

  mended :
      IsAt xs
        (rotate nodes₃ (above z) p w)
        z
        (fork (other v) c w (fork v false y b₁ b₂) (fork (other v) false p a t))
  mended = turn xs apart nodes₃ (other v) false c w p (fork v false y b₁ b₂) a t z stage₃

  mended_content : IsSameContent nodes (rotate nodes₃ (above z) p w)
  mended_content = IsSameContent-trans (set_red-IsSameContent nodes w c) (
      IsSameContent-trans (set_red-IsSameContent nodes₁ p false) (
        IsSameContent-trans (set_red-IsSameContent nodes₂ y false) (
          IsLinked-IsSameContent (
            turn_links xs apart nodes₃ (other v) false c w p (fork v false y b₁ b₂) a t z stage₃))))

  lift_coloured_eq : lift_coloured nodes p w (other v) c ≡ rotate nodes₃ (above z) p w
  unfolding lift_coloured
  lift_coloured_eq =
      let far : child (nodes₂ w) (other v) ≡ y =
        (IsTree-fork nodes₂ p (other v) c w (fork v true y b₁ b₂) a inside₂.tree).node.near
        ∙ top-fork v true y b₁ b₂ in
      let up : (nodes₃ p).parent ≡ above z =
        (IsTree-fork nodes₃ (above z) (other v) false p
          (fork (other v) c w (fork v false y b₁ b₂) a) t stage₃.tree).node.parent in
      rw (far, up)

  lift_last_eq : lift_last nodes p (other v) ≡ rotate nodes₃ (above z) p w
  unfolding lift_last
  lift_last_eq =
      let there : child (nodes p) (other v) ≡ w =
        at.rim.1.near ∙ top-fork v false w a (fork v true y b₁ b₂) in
      ap₂ (λ (i : ℕ) (r : Bool). lift_coloured nodes p i (other v) r) there at.rim.1.red
      ∙ lift_coloured_eq

  pub lift_last_lem :
      IsBalanced false n t
      → IsBalanced false n a
      → IsBalanced true n b₁
      → IsBalanced true n b₂
      → IsBalancedRim (suc (over c n)) z
      → (c ≡ true → is_red_above z ≡ false)
      → IsMended xs nodes (lift_last nodes p (other v))
  lift_last_lem bt ba bb₁ bb₂ br red = rw lift_last_eq (record {
    rest = z;
    count = suc (over c n);
    tree = fork (other v) c w (fork v false y b₁ b₂) (fork (other v) false p a t);
    at = mended;
    balanced =
        crown-IsBalanced (other v) c (is_red_above z) n w (fork v false y b₁ b₂)
          (fork (other v) false p a t) red
          (λ q.
            fork-IsBalanced v q n y b₁ b₂ (IsBalanced-weaken n b₁ bb₁) (IsBalanced-weaken n b₂ bb₂))
          (λ q. fork-IsBalanced (other v) q n p a t ba bt);
    rim = br;
    content = mended_content;
  })

-- A red nephew on the side of `x` comes up, and is black; the sibling becomes red below it.
module _ (xs : List ℕ) (apart : AreApart xs) (nodes : Nodes) (v : Side) (c : Bool) (p w q : ℕ)
    (t a₁ a₂ b : Tree) (z : Rim)
    (at : IsAt xs nodes (rim (other v) c p t z) (fork v false w (fork v true q a₁ a₂) b))
    (black : (nodes (top b)).red ≡ false) where
  abbrev dyed : Nodes
  dyed = set_red (set_red nodes q false) w true

  dyed-IsAt : IsAt xs dyed (rim (other v) c p t z) (fork v true w (fork v false q a₁ a₂) b)
  dyed-IsAt =
      paint xs (set_red nodes q false) v false w (fork v false q a₁ a₂) b (rim (other v) c p t z)
        true apart
        (go_up xs (set_red nodes q false) v false w (fork v false q a₁ a₂) b (rim (other v) c p t z)
          (paint xs nodes v true q a₁ a₂ (rim v false w b (rim (other v) c p t z)) false apart
            (go_down xs nodes v false w (fork v true q a₁ a₂) b (rim (other v) c p t z) at)))

  pub lifted_nephew :
      IsAt xs (rotate dyed p w q) (rim (other v) c p t z) (fork v false q a₁ (fork v true w a₂ b))
  lifted_nephew = turn xs apart dyed v true false q w a₁ a₂ b (rim (other v) c p t z) dyed-IsAt

  pub lifted_nephew_content : IsSameContent nodes (rotate dyed p w q)
  lifted_nephew_content = IsSameContent-trans (set_red-IsSameContent nodes q false) (
      IsSameContent-trans (set_red-IsSameContent (set_red nodes q false) w true) (
        IsLinked-IsSameContent
          (turn_links xs apart dyed v true false q w a₁ a₂ b (rim (other v) c p t z) dyed-IsAt)))

  here : IsFork nodes p v false w (fork v true q a₁ a₂) b
  here = IsTree-fork nodes p v false w (fork v true q a₁ a₂) b at.tree

  pub lift_nephew_eq : lift_nephew nodes p (other v) ≡ rotate dyed p w q
  unfolding lift_nephew
  lift_nephew_eq =
      let there : child (nodes p) (other v) ≡ w =
        at.rim.1.near ∙ top-fork v false w (fork v true q a₁ a₂) b in
      let near : child (nodes w) v ≡ q = here.node.near ∙ top-fork v true q a₁ a₂ in
      let now : child (dyed w) v ≡ q =
        (IsTree-fork dyed p v true w (fork v false q a₁ a₂) b dyed-IsAt.tree).node.near
        ∙ top-fork v false q a₁ a₂ in
      rw (there, here.node.far, black, other-other v, near, now)

-- Where the nephew on the far side is red, lift_nephew does nothing.
pub lift_nephew_none :
    (xs : List ℕ) (nodes : Nodes) (v : Side) (c : Bool) (p w : ℕ) (t a b : Tree) (z : Rim)
    → IsAt xs nodes (rim (other v) c p t z) (fork v false w a b)
    → (nodes (top b)).red ≡ true
    → lift_nephew nodes p (other v) ≡ nodes
unfolding lift_nephew
lift_nephew_none xs nodes v c p w t a b z at red =
    let there : child (nodes p) (other v) ≡ w = at.rim.1.near ∙ top-fork v false w a b in
    let here = IsTree-fork nodes p v false w a b at.tree in rw (there, here.node.far, red)
