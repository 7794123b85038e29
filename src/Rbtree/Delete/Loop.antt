-- ===== src/Rbtree/Delete/Loop.antt =====
-- delete_fixup: its loop ends, and leaves a red-black tree with the nodes in their order.
use nifty.Base.{
  ℕ, zero, suc, ◌<◌, ◌≡◌, ◌≢◌, ◌∙◌, ◌⊎◌, inl, inr, refl, ap, Bool, true, false, List, ◌==◌,
  if◌then◌else◌, arith,
}
use nifty.Rbtree.{Side, left, right, other, Nodes, set_red, root_of}
use nifty.Rbtree.Shape.{
  Tree, leaf, node, top, order, Rim, none, rim, height, one_if_self, in_rim, IsTree,
}
use nifty.Rbtree.Colour.{
  IsBalanced, IsBalancedRim, is_red_above, IsSameContent, IsSameContent-trans,
  set_red-IsSameContent,
}
use nifty.Rbtree.Fixup.{AreApart, places_count, root-set_red}
use nifty.Rbtree.Fixup.Loop.{IsRedBlack, whole, root_in_rim}
use nifty.Rbtree.Delete.{Progress, again, done, fixup_beside, delete_loop, delete_fixup}
use nifty.Rbtree.Delete.Moves.{IsAt, paint}
use nifty.Rbtree.Delete.Sibling.{IsShort}
use nifty.Rbtree.Delete.Nephews.{black-IsSunk}
use nifty.Rbtree.Delete.Ending.{IsMended}
use nifty.Rbtree.Delete.Round.{Outcome, IsRed, fixup_beside_lem}

-- The loop has ended: once `x` is black, the tree is a red-black tree.
abbrev Ends : List ℕ → Nodes → Nodes × ℕ → Type 0
Ends xs nodes r = IsRedBlack xs (set_red r.0 r.1 false) × IsSameContent nodes r.0

leaf-IsRedBlack :
    (xs : List ℕ) (nodes : Nodes)
    → root_of nodes ≡ 0
    → order leaf ≡ xs
    → IsRedBlack xs (set_red nodes 0 false)
leaf-IsRedBlack xs nodes r e = record {
  tree = leaf;
  black = 0;
  links = tt;
  root = root-set_red nodes 0 false ∙ r;
  balanced = refl;
  nil = refl;
  places = e;
}

-- A subtree whose top becomes black, and all that surrounds it.
painted-IsRedBlack :
    (xs : List ℕ) (apart : AreApart xs) (nodes : Nodes) (z : Rim) (n : ℕ) (c : Bool) (l : Tree)
    (i : ℕ) (r : Tree)
    → IsAt xs nodes z (node c l i r)
    → IsBalanced (is_red_above z) n (node false l i r)
    → IsBalancedRim n z
    → IsRedBlack xs (set_red nodes i false)
painted-IsRedBlack xs apart nodes z n c l i r a b br =
    let a' = paint xs nodes left c i l r z false apart a in
    let w = whole (set_red nodes i false) z n (node false l i r) a'.tree a'.rim b br in
    record {
      tree = w.tree;
      black = w.black;
      links = w.links;
      root = w.root;
      balanced = w.balanced;
      nil = a'.nil;
      places = w.places ∙ a'.places;
    }

whole-IsRedBlack :
    (xs : List ℕ) (apart : AreApart xs) (nodes : Nodes) (n : ℕ) (t : Tree)
    → IsAt xs nodes none t
    → IsBalanced true n t
    → IsRedBlack xs (set_red nodes (top t) false)
whole-IsRedBlack xs apart nodes n leaf a b = leaf-IsRedBlack xs nodes a.rim a.places
whole-IsRedBlack xs apart nodes n (node true l i r) a b = cc (b.0)
whole-IsRedBlack xs apart nodes n (node false l i r) a b =
    painted-IsRedBlack xs apart nodes none n false l i r a b tt

mended-Ends :
    (xs : List ℕ) (apart : AreApart xs) (nodes nodes' : Nodes) (x : ℕ)
    → IsMended xs nodes nodes'
    → x ≡ root_of nodes'
    → Ends xs nodes (nodes', x)
mended-Ends xs apart nodes nodes' x m e =
    let w = whole nodes' m.rest m.count m.tree m.at.tree m.at.rim m.balanced m.rim in
    let a : IsAt xs nodes' none w.tree = record {
      tree = w.links;
      rim = w.root;
      nil = m.at.nil;
      places = w.places ∙ m.at.places;
    } in
    (rw (e, w.root) (whole-IsRedBlack xs apart nodes' w.black w.tree a w.balanced), m.content)

-- The loop leaves off at the root.
root-Ends :
    (xs : List ℕ) (apart : AreApart xs) (nodes : Nodes) (n : ℕ) (t : Tree)
    → IsShort xs nodes none n t
    → IsRedBlack xs (set_red nodes (top t) false)
root-Ends xs apart nodes n leaf d = leaf-IsRedBlack xs nodes d.at.rim d.at.places
root-Ends xs apart nodes n (node true l i r) d =
    painted-IsRedBlack xs apart nodes none (suc n) true l i r d.at d.sunk tt
root-Ends xs apart nodes zero (node false l i r) d = absurd d.sunk
root-Ends xs apart nodes (suc n) (node false l i r) d =
    painted-IsRedBlack xs apart nodes none (suc n) false l i r d.at d.sunk tt

-- The place of `x` is not in the rest of the tree; `x` may be the sentinel.
not_in_rim :
    (xs : List ℕ) (nodes : Nodes) (z : Rim) (t : Tree)
    → AreApart xs
    → IsAt xs nodes z t
    → in_rim (top t) z ≡ 0
not_in_rim xs nodes z leaf apart a = omega (arith, places_count xs z leaf 0 a.places, apart.nil)
not_in_rim xs nodes z (node c l i r) apart a =
    omega (arith, places_count xs z (node c l i r) i a.places, apart.once i, one_if_self i)

not_root :
    (xs : List ℕ) (nodes : Nodes) (v : Side) (c : Bool) (p : ℕ) (s : Tree) (z : Rim) (t : Tree)
    → AreApart xs
    → IsAt xs nodes (rim v c p s z) t
    → (top t == root_of nodes) ≡ false
not_root xs nodes v c p s z t apart a =
    let outside = not_in_rim xs nodes (rim v c p s z) t apart a in
    let inside = root_in_rim nodes (top t) v c p s z a.rim in
    let differ : top t ≢ root_of nodes =
      λ e. omega (arith, outside, inside, ap (λ (k : ℕ). in_rim k (rim v c p s z)) e) in
    ground arith

-- On which side `x` hangs; `x` may be the sentinel, but its sibling is not.
side_found :
    (xs : List ℕ) (nodes : Nodes) (v : Side) (c : Bool) (p n : ℕ) (s : Tree) (z : Rim) (t : Tree)
    → AreApart xs
    → IsAt xs nodes (rim v c p s z) t
    → IsBalanced c (suc n) s
    → (if top t == (nodes p).left then right else left) ≡ other v
side_found xs nodes left c p n s z t apart a b =
    let same : (top t == (nodes p).left) ≡ true = ground (arith, a.rim.1.near) in rw same
side_found xs nodes right c p n leaf z t apart a b = absurd (omega (arith, b))
side_found xs nodes right c p n (node d l w r) z t apart a b =
    let outside = not_in_rim xs nodes (rim right c p (node d l w r) z) t apart a in
    let differ : top t ≢ w = λ e. omega (
      arith,
      outside,
      ap (λ (k : ℕ). in_rim k (rim right c p (node d l w r) z)) e,
      one_if_self w,
    ) in
    let no_test : (top t == (nodes p).left) ≡ false = ground (arith, a.rim.1.far) in rw no_test

sibling-IsBalanced :
    (v : Side) (c : Bool) (n p : ℕ) (s : Tree) (z : Rim)
    → IsBalancedRim (suc n) (rim v c p s z)
    → IsBalanced c (suc n) s
sibling-IsBalanced v true n p s z b = b.0
sibling-IsBalanced v false n p s z b = b.0

-- The fuel that the loop needs.
abbrev Enough : ℕ → Rim → Tree → Type 0
Enough fuel z t = (0 < fuel) × (IsRed t ⊎ (height z < fuel))

colour-cases :
    (nodes : Nodes) (p : ℕ) (t : Tree)
    → IsTree nodes p t
    → (nodes 0).red ≡ false
    → ((nodes (top t)).red ≡ false) ⊎ ((nodes (top t)).red ≡ true) × IsRed t
colour-cases nodes p leaf h e = inl e
colour-cases nodes p (node true l i r) h e = inr (h.1.red, refl)
colour-cases nodes p (node false l i r) h e = inl h.1.red

-- The loop leaves off at a red node.
red-Ends :
    (xs : List ℕ) (apart : AreApart xs) (nodes : Nodes) (z : Rim) (n : ℕ) (t : Tree)
    → IsShort xs nodes z n t
    → IsRed t
    → IsRedBlack xs (set_red nodes (top t) false)
red-Ends xs apart nodes z n leaf d e = absurd e
red-Ends xs apart nodes z n (node true l i r) d e =
    painted-IsRedBlack xs apart nodes z (suc n) true l i r d.at d.sunk d.balanced
red-Ends xs apart nodes z n (node false l i r) d e = cc (e)

not_red :
    (nodes : Nodes) (p : ℕ) (t : Tree)
    → IsTree nodes p t
    → (nodes (top t)).red ≡ false
    → ¬ (IsRed t)
not_red nodes p leaf h e r = r
not_red nodes p (node c l i s) h e r = cc (h.1.red, e, r)

module _ (xs : List ℕ) (apart : AreApart xs) where
  after_round :
      (fuel m : ℕ) (nodes : Nodes) (r : Progress)
      → Outcome xs nodes m r
      → 0 < fuel
      → m < fuel
      → ((nodes' : Nodes) (z : Rim) (n : ℕ) (t : Tree)
          → IsShort xs nodes' z n t
          → Enough fuel z t
          → Ends xs nodes' (delete_loop fuel nodes' (top t)))
      → Ends xs nodes
          (elim r [ again nodes' x' ↦ delete_loop fuel nodes' x' | done nodes' x' ↦ (nodes', x') ])
  after_round fuel m nodes (again nodes' x) o pos lt rec =
      let enough : Enough fuel o.rest o.tree =
        (pos, elim o.nearer [ inl e ↦ inl e | inr le ↦ inr (omega arith) ]) in
      let (held, content) = rec nodes' o.rest o.count o.tree o.short enough in
      rw o.here (held, IsSameContent-trans o.content content)
  after_round fuel m nodes (done nodes' x) o pos lt rec =
      mended-Ends xs apart nodes nodes' x o.0 o.1

  loop-Ends :
      (fuel : ℕ) (nodes : Nodes) (z : Rim) (n : ℕ) (t : Tree)
      → IsShort xs nodes z n t
      → Enough fuel z t
      → Ends xs nodes (delete_loop fuel nodes (top t))
  unfolding delete_loop
  loop-Ends zero nodes z n t d e = absurd (omega (arith, e.0))
  loop-Ends (suc fuel) nodes none n t d e =
      let same : (top t == root_of nodes) ≡ true = ground (arith, d.at.rim) in
      rw same (root-Ends xs apart nodes n t d, record { contents = λ j. (refl, refl) })
  loop-Ends (suc fuel) nodes (rim v c p s z) n t d e =
      elim (colour-cases nodes p t d.at.tree d.at.nil) [
        | inr (f, g) ↦
            rw (f, not_root xs nodes v c p s z t apart d.at)
              (
                red-Ends xs apart nodes (rim v c p s z) n t d g,
                record { contents = λ j. (refl, refl) },
              )
        | inl f ↦
            let o =
              fixup_beside_lem xs apart nodes v c p n t s z d
                (black-IsSunk nodes p n t d.at.tree f d.sunk) in
            let near : height z < fuel = elim e.1 [
              | inl r ↦ absurd (not_red nodes p t d.at.tree f r)
              | inr lt ↦ omega arith
            ] in
            let found =
              side_found xs nodes v c p n s z t apart d.at
                (sibling-IsBalanced v c n p s z d.balanced) in
            rw (f, not_root xs nodes v c p s z t apart d.at, d.hangs, found)
              (after_round fuel (height z) nodes (fixup_beside nodes p (other v)) o (omega arith)
                near (loop-Ends fuel))
      ]

-- Where the tree is one black node short on each way to the node `x`, and only there, delete_fixup
-- comes to an end, and makes it a red-black tree with the same nodes in the same order. The nodes
-- keep their keys and their data.
pub delete_fixup_lem :
    (xs : List ℕ) (apart : AreApart xs) (fuel : ℕ) (nodes : Nodes) (z : Rim) (n : ℕ) (t : Tree)
    → IsShort xs nodes z n t
    → height z < fuel
    → IsRedBlack xs (delete_fixup fuel nodes (top t))
      × IsSameContent nodes (delete_fixup fuel nodes (top t))
unfolding delete_fixup
delete_fixup_lem xs apart fuel nodes z n t d lt =
    let (held, content) = loop-Ends xs apart fuel nodes z n t d (omega arith, inr lt) in
    let r = delete_loop fuel nodes (top t) in
    (held, IsSameContent-trans content (set_red-IsSameContent r.0 r.1 false))
