-- ===== src/Rbtree/Delete/Nephews.antt =====
-- delete_fixup, with a black sibling: the sibling becomes red and the loop goes on from the parent,
-- or a red nephew is found, and the loop ends.
use nifty.Base.{ℕ, zero, suc, ◌≡◌, Bool, true, false, List}
use nifty.Rbtree.{Side, left, right, other, Nodes, set_red}
use nifty.Rbtree.Shape.{Tree, leaf, node, top, Rim, rim, above, IsTree, fork, IsTree-fork, top-fork}
use nifty.Rbtree.Colour.{IsBalanced, IsBalancedRim, IsBalanced-weaken, fork_red-IsBalanced}
use nifty.Rbtree.Fixup.{AreApart}
use nifty.Rbtree.Delete.Moves.{IsAt, fork-flip, go_up, go_down, paint}
use nifty.Rbtree.Delete.Sibling.{IsSunk, IsShort}

-- A subtree whose top the code reads as black.
pub black-IsBalanced :
    (nodes : Nodes) (p n : ℕ) (t : Tree)
    → IsTree nodes p t
    → (nodes (top t)).red ≡ false
    → IsBalanced false n t
    → IsBalanced true n t
black-IsBalanced nodes p n leaf h e b = b
black-IsBalanced nodes p n (node true l i r) h e b = cc (e, h.1.red)
black-IsBalanced nodes p zero (node false l i r) h e b = b
black-IsBalanced nodes p (suc n) (node false l i r) h e b = b

pub black-IsSunk :
    (nodes : Nodes) (p n : ℕ) (t : Tree)
    → IsTree nodes p t
    → (nodes (top t)).red ≡ false
    → IsSunk n t
    → IsBalanced true n t
black-IsSunk nodes p n leaf h e b = b
black-IsSunk nodes p n (node true l i r) h e b = cc (e, h.1.red)
black-IsSunk nodes p zero (node false l i r) h e b = b
black-IsSunk nodes p (suc n) (node false l i r) h e b = b

-- The height of a tree with children of height `n`.
abbrev pub over : Bool → ℕ → ℕ
over true n = n
over false n = suc n

fork-IsSunk :
    (v : Side) (c : Bool) (n i : ℕ) (x y : Tree)
    → IsBalanced false n x
    → IsBalanced false n y
    → IsSunk (over c n) (fork v c i x y)
fork-IsSunk left true n i x y a b = (a, b)
fork-IsSunk left false n i x y a b = (a, b)
fork-IsSunk right true n i x y a b = (b, a)
fork-IsSunk right false n i x y a b = (b, a)

pub above-IsBalancedRim :
    (v : Side) (c : Bool) (n p : ℕ) (s : Tree) (z : Rim)
    → IsBalancedRim (suc n) (rim v c p s z)
    → IsBalancedRim (suc (over c n)) z
above-IsBalancedRim v true n p s z b = b.2
above-IsBalancedRim v false n p s z b = b.1

-- The focus on the sibling, and back.
pub to_sibling :
    (xs : List ℕ) (nodes : Nodes) (v : Side) (c : Bool) (p : ℕ) (t s : Tree) (z : Rim)
    → IsAt xs nodes (rim v c p s z) t
    → IsAt xs nodes (rim (other v) c p t z) s
to_sibling xs nodes v c p t s z a =
    go_down xs nodes (other v) c p s t z (rw (fork-flip v c p t s) (go_up xs nodes v c p t s z a))

module _ (xs : List ℕ) (apart : AreApart xs) (nodes : Nodes) (v : Side) (c : Bool) (p w n : ℕ)
    (t a b : Tree) (z : Rim) (d : IsShort xs nodes (rim v c p (fork v false w a b) z) n t)
    (bt : IsBalanced true n t) where
  sibling : IsAt xs nodes (rim (other v) c p t z) (fork v false w a b)
  sibling = to_sibling xs nodes v c p t (fork v false w a b) z d.at

  -- The sibling becomes red.
  reddened : IsAt xs (set_red nodes w true) z (fork v c p t (fork v true w a b))
  reddened = rw (← fork-flip v c p t (fork v true w a b)) (
      go_up xs (set_red nodes w true) (other v) c p (fork v true w a b) t z
        (paint xs nodes v false w a b (rim (other v) c p t z) true apart sibling))

  pub reddened-IsShort :
      IsBalanced true n a
      → IsBalanced true n b
      → IsShort xs (set_red nodes w true) z (over c n) (fork v c p t (fork v true w a b))
  reddened-IsShort ba bb = record {
    at = reddened;
    sunk =
        fork-IsSunk v c n p t (fork v true w a b) (IsBalanced-weaken n t bt)
          (fork_red-IsBalanced v n w a b ba bb);
    balanced = above-IsBalancedRim v c n p (fork v false w a b) z d.balanced;
    hangs =
        rw (top-fork v c p t (fork v true w a b))
          (IsTree-fork (set_red nodes w true) (above z) v c p t (fork v true w a b)
            reddened.tree).node.parent;
  }
