-- ===== src/Rbtree/Delete/First.antt =====
-- The node that comes after another, with the subtree there in focus, and writes to a node that
-- leave its links.
use mathlib.Core.List.{append_assoc, append-nil}
use nifty.Base.{ℕ, ◌<◌, ◌≡◌, ◌⊎◌, inl, inr, ◌∙◌, refl, sym, ap, Bool, List, [], ◌∷◌, ◌++◌, arith}
use nifty.Rbtree.{left, right, Side, Node, Nodes}
use nifty.Rbtree.Shape.{
  Tree, leaf, node, top, order, Rim, none, rim, above, around, one_if, one_if_self, in_tree, in_rim,
  IsNode, IsTree, IsRim,
}
use nifty.Rbtree.Read.Walk.{start, next}
use nifty.Rbtree.Delete.Locate.{IsFocus, left-IsFocus}

-- The first node of a subtree in focus.
pub record IsFirst (xs : List ℕ) (nodes : Nodes) (z : Rim) (t : Tree) : Type 0 where
  pub rest : Rim
  pub black : ℕ
  pub colour : Bool
  pub place : ℕ
  pub far : Tree
  pub tail : List ℕ
  pub focus : IsFocus xs nodes rest black (node colour leaf place far)
  pub beyond : (ks : List ℕ) → around rest ks ≡ around z (ks ++ tail)
  pub order_eq : order t ≡ place ∷ (order far ++ tail)
  pub start_eq : (a : ℕ) → start t a ≡ place

pub first :
    (xs : List ℕ) (nodes : Nodes) (z : Rim) (n : ℕ) (c : Bool) (l : Tree) (i : ℕ) (r : Tree)
    → IsFocus xs nodes z n (node c l i r)
    → IsFirst xs nodes z (node c l i r)
first xs nodes z n c leaf i r f = record {
  rest = z;
  black = n;
  colour = c;
  place = i;
  far = r;
  tail = [];
  focus = f;
  beyond = λ ks. ap (around z) (sym (append-nil ks));
  order_eq = ap (λ (ks : List ℕ). i ∷ ks) (sym (append-nil (order r)));
  start_eq = λ a. refl;
}
first xs nodes z n c (node d l j s) i r f =
    let (m, g) = left-IsFocus xs nodes z n c (node d l j s) i r f in
    let o = first xs nodes (rim left c i r z) m d l j s g in
    record {
      rest = o.rest;
      black = o.black;
      colour = o.colour;
      place = o.place;
      far = o.far;
      tail = o.tail ++ (i ∷ order r);
      focus = o.focus;
      beyond = λ ks. o.beyond ks ∙ ap (around z) (append_assoc ks o.tail (i ∷ order r));
      order_eq =
          ap (λ (ks : List ℕ). ks ++ (i ∷ order r)) o.order_eq
          ∙ ap (λ (ks : List ℕ). o.place ∷ ks) (append_assoc (order o.far) o.tail (i ∷ order r));
      start_eq = λ a. o.start_eq i;
    }

-- The node after a subtree is none, or stands around it.
pub next_in : (z : Rim) → (next z ≡ 0) ⊎ (0 < in_rim (next z) z)
next_in none = inl refl
next_in (rim left c i t z) = inr (omega (arith, one_if_self i))
next_in (rim right c i t z) = elim (next_in z) [ inl e ↦ inl e | inr h ↦ inr (omega arith) ]

pub start_in : (t : Tree) (a : ℕ) → (start t a ≡ a) ⊎ (0 < in_tree (start t a) t)
start_in leaf a = inl refl
start_in (node c leaf i r) a = inr (omega (arith, one_if_self i))
start_in (node c (node d l j s) i r) a = elim (start_in (node d l j s) i) [
  | inl e ↦ inr (omega (arith, ap (λ (k : ℕ). one_if k i) e, one_if_self i))
  | inr h ↦ inr (omega arith)
]

-- Two nodes with the same links and colour.
pub record IsAlike (n n' : Node) : Type 0 where
  pub left : n'.left ≡ n.left
  pub right : n'.right ≡ n.right
  pub parent : n'.parent ≡ n.parent
  pub red : n'.red ≡ n.red

alike-IsNode :
    (n n' : Node) (p : ℕ) (c : Bool) (w : Side) (x y : ℕ)
    → IsAlike n n'
    → IsNode n p c w x y
    → IsNode n' p c w x y
alike-IsNode n n' p c left x y a s = record {
  parent = a.parent ∙ s.parent;
  red = a.red ∙ s.red;
  near = a.left ∙ s.near;
  far = a.right ∙ s.far;
}
alike-IsNode n n' p c right x y a s = record {
  parent = a.parent ∙ s.parent;
  red = a.red ∙ s.red;
  near = a.right ∙ s.near;
  far = a.left ∙ s.far;
}

module _ (nodes nodes' : Nodes) (a : (j : ℕ) → IsAlike (nodes j) (nodes' j)) where
  alike-IsTree : (p : ℕ) (t : Tree) → IsTree nodes p t → IsTree nodes' p t
  alike-IsTree p leaf h = tt
  alike-IsTree p (node c l i r) h = (
    h.0,
    alike-IsNode (nodes i) (nodes' i) p c left (top l) (top r) (a i) h.1,
    alike-IsTree i l h.2,
    alike-IsTree i r h.3,
  )

  alike-IsRim : (h : ℕ) (z : Rim) → IsRim nodes h z → IsRim nodes' h z
  alike-IsRim h none r = (a 0).left ∙ r
  alike-IsRim h (rim w c i t z) r = (
    r.0,
    alike-IsNode (nodes i) (nodes' i) (above z) c w h (top t) (a i) r.1,
    alike-IsTree i t r.2,
    alike-IsRim i z r.3,
  )

  pub alike-IsFocus :
      (xs : List ℕ) (z : Rim) (n : ℕ) (t : Tree) → IsFocus xs nodes z n t → IsFocus xs nodes' z n t
  alike-IsFocus xs z n t f = record {
    at = record {
      tree = alike-IsTree (above z) t f.at.tree;
      rim = alike-IsRim (top t) z f.at.rim;
      nil = (a 0).red ∙ f.at.nil;
      places = f.at.places;
    };
    balanced = f.balanced;
    beyond = f.beyond;
  }
