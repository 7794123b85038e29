-- ===== src/Rbtree/Delete/Locate.antt =====
-- A place of a red-black tree, with the subtree there in focus.
use mathlib.Core.Path.{subst}
use nifty.Base.{
  ℕ, zero, suc, ◌+◌, ◌<◌, ◌≡◌, ◌⊎◌, inl, inr, ◌∙◌, refl, sym, ap, Bool, true, false, List, [], ◌∷◌,
  ◌++◌, length, length-append, arith,
}
use nifty.Rbtree.{left, right, Nodes}
use nifty.Rbtree.Shape.{
  Tree, leaf, node, order, Rim, none, rim, around, height, occurs, occurs-order, one_if,
  eq_of_one_if, in_tree,
}
use nifty.Rbtree.Place.{length-around, height-le-rim_size}
use nifty.Rbtree.Colour.{IsBalanced, IsBalancedRim, is_red_above}
use nifty.Rbtree.Fixup.Loop.{IsRedBlack, whole}
use nifty.Rbtree.Insert.Sorted.{entry, entries_at}
use nifty.Rbtree.Delete.Moves.{IsAt, go_down}

-- A balanced tree with a subtree in focus.
pub record IsFocus (xs : List ℕ) (nodes : Nodes) (z : Rim) (n : ℕ) (t : Tree) : Type 0 where
  pub at : IsAt xs nodes z t
  pub balanced : IsBalanced (is_red_above z) n t
  pub beyond : IsBalancedRim n z

pub left-IsFocus :
    (xs : List ℕ) (nodes : Nodes) (z : Rim) (n : ℕ) (c : Bool) (l : Tree) (i : ℕ) (r : Tree)
    → IsFocus xs nodes z n (node c l i r)
    → (m : ℕ) × IsFocus xs nodes (rim left c i r z) m l
left-IsFocus xs nodes z n true l i r f = (
  n,
  record {
    at = go_down xs nodes left true i l r z f.at;
    balanced = f.balanced.1;
    beyond = (f.balanced.2, f.balanced.0, f.beyond);
  },
)
left-IsFocus xs nodes z zero false l i r f = absurd f.balanced
left-IsFocus xs nodes z (suc n) false l i r f = (
  n,
  record {
    at = go_down xs nodes left false i l r z f.at;
    balanced = f.balanced.0;
    beyond = (f.balanced.1, f.beyond);
  },
)

pub right-IsFocus :
    (xs : List ℕ) (nodes : Nodes) (z : Rim) (n : ℕ) (c : Bool) (l : Tree) (i : ℕ) (r : Tree)
    → IsFocus xs nodes z n (node c l i r)
    → (m : ℕ) × IsFocus xs nodes (rim right c i l z) m r
right-IsFocus xs nodes z n true l i r f = (
  n,
  record {
    at = go_down xs nodes right true i r l z f.at;
    balanced = f.balanced.2;
    beyond = (f.balanced.1, f.balanced.0, f.beyond);
  },
)
right-IsFocus xs nodes z zero false l i r f = absurd f.balanced
right-IsFocus xs nodes z (suc n) false l i r f = (
  n,
  record {
    at = go_down xs nodes right false i r l z f.at;
    balanced = f.balanced.1;
    beyond = (f.balanced.0, f.beyond);
  },
)

-- The tree as a whole, with a subtree in focus or not.
pub IsRedBlack-of_focus :
    (xs : List ℕ) (nodes : Nodes) (z : Rim) (n : ℕ) (t : Tree)
    → IsFocus xs nodes z n t
    → IsRedBlack xs nodes
IsRedBlack-of_focus xs nodes z n t f =
    let o = whole nodes z n t f.at.tree f.at.rim f.balanced f.beyond in
    record {
      tree = o.tree;
      black = o.black;
      links = o.links;
      root = o.root;
      balanced = o.balanced;
      nil = f.at.nil;
      places = o.places ∙ f.at.places;
    }

-- The node at a place.
pub record IsLocated (xs : List ℕ) (nodes : Nodes) (j : ℕ) : Type 0 where
  pub rest : Rim
  pub black : ℕ
  pub colour : Bool
  pub near : Tree
  pub far : Tree
  pub focus : IsFocus xs nodes rest black (node colour near j far)

one_of_three : (a b c : ℕ) → 0 < a + b + c → (0 < a) ⊎ (0 < b) ⊎ (0 < c)
one_of_three zero zero c h = inr (inr (omega arith))
one_of_three zero (suc b) c h = inr (inl (omega arith))
one_of_three (suc a) b c h = inl (omega arith)

locate_in :
    (xs : List ℕ) (nodes : Nodes) (z : Rim) (n : ℕ) (t : Tree) (j : ℕ)
    → IsFocus xs nodes z n t
    → 0 < in_tree j t
    → IsLocated xs nodes j
locate_in xs nodes z n leaf j f h = absurd (omega arith)
locate_in xs nodes z n (node c l i r) j f h =
    elim (one_of_three (in_tree j l) (one_if j i) (in_tree j r) h) [
      | inl k ↦
          let (m, g) = left-IsFocus xs nodes z n c l i r f in
          locate_in xs nodes (rim left c i r z) m l j g k
      | inr (inl k) ↦
          subst (λ (e : ℕ). IsLocated xs nodes e) (sym (eq_of_one_if j i k))
            (record { rest = z; black = n; colour = c; near = l; far = r; focus = f })
      | inr (inr k) ↦
          let (m, g) = right-IsFocus xs nodes z n c l i r f in
          locate_in xs nodes (rim right c i l z) m r j g k
    ]

pub root-IsFocus :
    (xs : List ℕ) (nodes : Nodes) (o : IsRedBlack xs nodes) → IsFocus xs nodes none o.black o.tree
root-IsFocus xs nodes o = record {
  at = record { tree = o.links; rim = o.root; nil = o.nil; places = o.places };
  balanced = o.balanced;
  beyond = tt;
}

pub locate :
    (xs : List ℕ) (nodes : Nodes) (j : ℕ)
    → IsRedBlack xs nodes
    → 0 < occurs j xs
    → IsLocated xs nodes j
locate xs nodes j o h =
    locate_in xs nodes none o.black o.tree j (root-IsFocus xs nodes o)
      (omega (arith, h, occurs-order j o.tree, ap (occurs j) o.places))

-- The depth of a focus is less than the number of nodes.
pub height_lt :
    (xs : List ℕ) (z : Rim) (c : Bool) (l : Tree) (i : ℕ) (r : Tree)
    → around z (order (node c l i r)) ≡ xs
    → height z < length xs
height_lt xs z c l i r e = omega (
  arith,
  height-le-rim_size z,
  length-around z (order (node c l i r)),
  length-append (order l) (i ∷ order r),
  ap (length {A = ℕ}) e,
)

pub entries_at-append :
    (nodes : Nodes) (js ks : List ℕ)
    → entries_at nodes (js ++ ks) ≡ entries_at nodes js ++ entries_at nodes ks
entries_at-append nodes [] ks = refl
entries_at-append nodes (j ∷ js) ks =
    ap (λ es. entry (nodes j) ∷ es) (entries_at-append nodes js ks)
