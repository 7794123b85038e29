-- ===== src/Rbtree/Insert/Attach.antt =====
-- attach_leaf: the new node hangs below the node that was found, and is red before insert_fixup.
use nifty.Base.{
  ℕ, ◌+◌, ◌≤◌, ◌<◌, ◌≡◌, ◌≢◌, ◌∙◌, refl, ap, Bool, true, false, List, [], ◌∷◌, ◌==◌, if◌then◌else◌,
  arith, length, Bool-cases, inl, inr,
}
use nifty.Rbtree.{
  Side, left, right, Node, Nodes, with_child, set_node, set_child, set_red, root_of, Compare,
  insert_fixup,
}
use nifty.Rbtree.Shape.{
  leaf, node, rim, height, occurs, occurs-around, one_if, one_if_eq, in_tree, in_rim, IsRim-hang,
}
use nifty.Rbtree.Rotate.{IsSame}
use nifty.Rbtree.Fixup.{AreApart, IsFixing}
use nifty.Rbtree.Fixup.Loop.{IsRedBlack, insert_fixup_lem}
use nifty.Rbtree.Place.{IsPlaced, insert_place, positive_test, length-around, height-le-rim_size}

abbrev pub new_leaf : ℕ → ℕ → ℕ → Bool → Node
new_leaf key value parent red = record {
  key = key;
  value = value;
  left = 0;
  right = 0;
  parent = parent;
  red = red;
}

with_child_red : (n : Node) (w : Side) (c : ℕ) → (with_child n w c).red ≡ n.red
with_child_red n left c = refl
with_child_red n right c = refl

with_child-IsSame : (n : Node) (w : Side) (c : ℕ) → IsSame n (with_child n w c)
with_child-IsSame n left c = (refl, refl)
with_child-IsSame n right c = (refl, refl)

module _ (nodes : Nodes) (k key value p : ℕ) (w : Side) (kp : k ≢ p) (k₀ : 0 < k) where
  -- The array after attach_leaf, and SET_RED in insert_node.
  abbrev pub attached : Nodes
  attached = set_red (set_child (set_node nodes k (new_leaf key value p false)) p w k) k true

  attached_new : attached k ≡ new_leaf key value p true
  attached_new = ground (arith, kp)

  attached_parent : attached p ≡ with_child (nodes p) w k
  attached_parent = ground (arith, kp)

  attached_rest : (j : ℕ) → j ≢ k → j ≢ p → attached j ≡ nodes j
  attached_rest j jk jp = ground arith

  attached_content : (j : ℕ) → j ≢ k → IsSame (nodes j) (attached j)
  attached_content j jk =
      ground (arith, attached_rest j jk, attached_parent, with_child-IsSame (nodes p) w k)

length-insert_place :
    (f : ℕ → Bool) (k : ℕ) (js : List ℕ) → length (insert_place f k js) ≡ length js + 1
unfolding insert_place
length-insert_place f k [] = refl
length-insert_place f k (j ∷ js) = elim (Bool-cases (f j)) [
  | inl e ↦ rw e (omega arith)
  | inr e ↦ rw e (omega (arith, length-insert_place f k js))
]

-- The rebalanced tree holds the new node, and what the others held.
pub record IsInserted (nodes : Nodes) (key value k : ℕ) (js : List ℕ) (nodes' : Nodes)
    : Type 0 where
  pub held : IsRedBlack js nodes'
  pub new : ((nodes' k).key ≡ key) × ((nodes' k).value ≡ value)
  pub others : (j : ℕ) → j ≢ k → IsSame (nodes j) (nodes' j)

module _ (cmp : Compare) (nodes : Nodes) (key value k : ℕ) (js : List ℕ) (r : ℕ × Side)
    (apart : AreApart js) (nil : (nodes 0).red ≡ false) (o : IsPlaced cmp nodes key value k js r)
    (fresh : (k ≢ r.0) × (0 < k)) where
  abbrev hung : Nodes
  hung = attached nodes k key value r.0 r.1 fresh.0 fresh.1

  once : (j : ℕ) → one_if j k + (in_tree j o.sibling + one_if j r.0 + in_rim j o.rest) ≤ 1
  unfolding occurs
  once j = omega (
    arith,
    apart.once j,
    occurs-around j (rim r.1 o.colour r.0 o.sibling o.rest) (k ∷ []),
    ap (occurs j) o.places,
  )

  kept :
      (j : ℕ)
      → 0 < in_tree j o.sibling + one_if j r.0 + in_rim j o.rest
      → j ≢ r.0
      → hung j ≡ nodes j
  kept j h e =
      attached_rest nodes k key value r.0 r.1 fresh.0 fresh.1 j
        (λ e'. omega (arith, once j, one_if_eq j k e')) e

  root-hung : root_of hung ≡ (if r.0 == 0 then k else root_of nodes)
  root-hung =
      let zero_rest =
        attached_rest nodes k key value r.0 r.1 fresh.0 fresh.1 0 (λ e. omega (arith, fresh.1))
          (λ e. omega (arith, o.links.0)) in
      rw (positive_test r.0 o.links.0) (ap (λ (n : Node). n.left) zero_rest)

  hung-IsFixing : IsFixing js hung (rim r.1 o.colour r.0 o.sibling o.rest) 0 (node true leaf k leaf)
  hung-IsFixing = record {
    tree = (
      fresh.1,
      rw (attached_new nodes k key value r.0 r.1 fresh.0 fresh.1)
          (record { parent = refl; red = refl; near = refl; far = refl }),
      tt,
      tt,
    );
    rim =
        IsRim-hang nodes hung 0 k (rim r.1 o.colour r.0 o.sibling o.rest) kept
          (λ h. attached_parent nodes k key value r.0 r.1 fresh.0 fresh.1) root-hung
          (λ j. omega (arith, once j)) o.links;
    hot = (refl, refl);
    balanced = o.balanced;
    nil =
        ap (λ (n : Node). n.red)
          (attached_rest nodes k key value r.0 r.1 fresh.0 fresh.1 0 (λ e. omega (arith, fresh.1))
            (λ e. omega (arith, o.links.0)))
        ∙ nil;
    places = o.places;
  }

  pub fixup-IsInserted :
      (fuel : ℕ) → length js ≤ fuel → IsInserted nodes key value k js (insert_fixup fuel hung k)
  fixup-IsInserted fuel le =
      let z = rim r.1 o.colour r.0 o.sibling o.rest in
      let enough : height z < fuel =
        omega
          (arith, height-le-rim_size z, length-around z (k ∷ []), ap (length {A = ℕ}) o.places) in
      let (held, content) =
        insert_fixup_lem js apart fuel hung z 0 (node true leaf k leaf) hung-IsFixing enough in
      let new = attached_new nodes k key value r.0 r.1 fresh.0 fresh.1 in
      record {
        held = held;
        new = (
          (content.contents k).0 ∙ ap (λ (n : Node). n.key) new,
          (content.contents k).1 ∙ ap (λ (n : Node). n.value) new,
        );
        others = λ j e.
            (let before = attached_content nodes k key value r.0 r.1 fresh.0 fresh.1 j e in
              ((content.contents j).0 ∙ before.0, (content.contents j).1 ∙ before.1));
      }
