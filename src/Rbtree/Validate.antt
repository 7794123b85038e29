-- ===== src/Rbtree/Validate.antt =====
-- rbtree_validate in src/nft_rbtree.c, with check_pointers, which looks at the links and the
-- colours.
pub mod Keys
pub mod Links
use nifty.Base.{
  ℕ, zero, suc, ◌+◌, ◌-◌, ◌≤◌, ◌<◌, ◌≡◌, refl, sym, ap, ◌∙◌, Bool, true, false, not, Option, none,
  some, List, ◌∷◌, length, length-append, leb, ◌==◌, ◌&&◌, ◌||◌, if◌then◌else◌, arith,
}
use nifty.Rbtree.{Rbtree, Compare, is_below, Nodes, root_of}
use nifty.Rbtree.Read.{node_first, node_successor}
use nifty.Rbtree.Shape.{
  Tree, leaf, node, top, order, in_tree, one_if, one_if_self, occurs, occurs-order, IsTree, IsNode,
}
use nifty.Rbtree.Colour.{IsBalanced, IsBalanced-weaken}
use nifty.Rbtree.Place.{positive_test}
use nifty.Rbtree.Fixup.Loop.{IsRedBlack}
use nifty.Rbtree.Valid.{IsValid, in_use, length_places}

-- The tests of a node, which may fail in three ways.
pub is_sound : ℕ → Nodes → ℕ → Bool
is_sound bound nodes i =
    let right = (nodes i).right in
    let left = (nodes i).left in
    not ((i == 0) || leb bound i)
    && (not (
          (not (right == 0) && not ((nodes right).parent == i))
          || (not (left == 0) && not ((nodes left).parent == i)))
        && not ((nodes i).red && ((nodes left).red || (nodes right).red)))

-- check_pointers. A walk that does not come to an end within the fuel is not accepted.
pub check_pointers : ℕ → ℕ → Nodes → ℕ → Bool
check_pointers zero bound nodes i = i == 0
check_pointers (suc fuel) bound nodes i =
    let left = check_pointers fuel bound nodes (nodes i).left in
    let right = check_pointers fuel bound nodes (nodes i).right in
    if i == 0 then true else is_sound bound nodes i && (left && right)

-- The order of the keys. A walk that does not come to an end within the fuel is not accepted.
pub keys_loop : Compare → ℕ → Rbtree → ℕ → ℕ → Bool → Bool
keys_loop cmp zero t prev i result = (i == 0) && result
keys_loop cmp (suc fuel) t prev i result =
    let out =
      not (prev == 0)
      && is_below (cmp (t.nodes i).key (t.nodes prev).key (t.nodes i).value (t.nodes prev).value) in
    let rest = keys_loop cmp fuel t i (node_successor t i) (if out then false else result) in
    if i == 0 then result else rest

-- rbtree_validate. `none` is a read through a null pointer, where the tree has no nodes yet, or one
-- of the two assertions at the start. The others stand beside the result 0, and are taken as off.
pub rbtree_validate : Compare → Rbtree → Option Bool
rbtree_validate cmp t =
    if (t.num_nodes == 0) || ((t.nodes 0).red || leb t.next_free t.current)
    then none
    else if check_pointers t.next_free t.next_free t.nodes (root_of t.nodes)
    then some
        (keys_loop cmp t.next_free t 0 (node_first t) ((t.nodes (root_of t.nodes)).parent == 0))
    else some false

top_parent :
    (nodes : Nodes) (i : ℕ) (t : Tree)
    → IsTree nodes i t
    → (not (top t == 0) && not ((nodes (top t)).parent == i)) ≡ false
top_parent nodes i leaf h = refl
top_parent nodes i (node c l j r) h = ground (arith, h.1.parent)

top_black :
    (nodes : Nodes) (n i : ℕ) (t : Tree)
    → IsTree nodes i t
    → IsBalanced true n t
    → (nodes 0).red ≡ false
    → (nodes (top t)).red ≡ false
top_black nodes n i leaf h b z = z
top_black nodes n i (node true l j r) h b z = cc b.0
top_black nodes n i (node false l j r) h b z = h.1.red

-- A node with its subtrees passes the tests.
node_is_sound :
    (nodes : Nodes) (bound n p : ℕ) (c : Bool) (l : Tree) (i : ℕ) (r : Tree)
    → IsTree nodes p (node c l i r)
    → IsBalanced false n (node c l i r)
    → (nodes 0).red ≡ false
    → i < bound
    → is_sound bound nodes i ≡ true
unfolding is_sound
node_is_sound nodes bound n p true l i r (pos, s, hl, hr) b z lt =
    let pl = top_parent nodes i l hl in
    let pr = top_parent nodes i r hr in
    let bl = top_black nodes n i l hl b.1 z in
    let br = top_black nodes n i r hr b.2 z in
    rw (s.near, s.far, s.red, pl, pr, bl, br) (ground arith)
node_is_sound nodes bound n p false l i r (pos, s, hl, hr) b z lt =
    let pl = top_parent nodes i l hl in
    let pr = top_parent nodes i r hr in rw (s.near, s.far, s.red, pl, pr) (ground arith)

accepts_node :
    (nodes : Nodes) (bound fuel n p : ℕ) (c : Bool) (l : Tree) (i : ℕ) (r : Tree)
    → IsTree nodes p (node c l i r)
    → IsBalanced false n (node c l i r)
    → (nodes 0).red ≡ false
    → i < bound
    → check_pointers fuel bound nodes (top l) ≡ true
    → check_pointers fuel bound nodes (top r) ≡ true
    → check_pointers (suc fuel) bound nodes i ≡ true
unfolding check_pointers
accepts_node nodes bound fuel n p c l i r h b z lt near far =
    let sound = node_is_sound nodes bound n p c l i r h b z lt in
    rw (positive_test i h.0, sound, h.1.near, h.1.far, near, far) refl

within :
    (bound : ℕ) (c : Bool) (l : Tree) (i : ℕ) (r : Tree)
    → ((j : ℕ) → bound ≤ j → in_tree j (node c l i r) ≡ 0)
    → i < bound
within bound c l i r d = ground (arith, d i, one_if_self i)

accepts :
    (nodes : Nodes) (bound fuel n p : ℕ) (t : Tree)
    → IsTree nodes p t
    → IsBalanced false n t
    → (nodes 0).red ≡ false
    → ((j : ℕ) → bound ≤ j → in_tree j t ≡ 0)
    → length (order t) ≤ fuel
    → check_pointers fuel bound nodes (top t) ≡ true
unfolding check_pointers
accepts nodes bound zero n p leaf h b z d le = refl
accepts nodes bound (suc fuel) n p leaf h b z d le = refl
accepts nodes bound zero n p (node c l i r) h b z d le =
    absurd (omega (arith, length-append (order l) (i ∷ order r), le))
accepts nodes bound (suc fuel) n p (node true l i r) h b z d le =
    let size = length-append (order l) (i ∷ order r) in
    accepts_node nodes bound fuel n p true l i r h b z (within bound true l i r d)
      (accepts nodes bound fuel n i l h.2 (IsBalanced-weaken n l b.1) z
        (λ j m. omega (arith, d j m)) (omega (arith, size, le)))
      (accepts nodes bound fuel n i r h.3 (IsBalanced-weaken n r b.2) z
        (λ j m. omega (arith, d j m)) (omega (arith, size, le)))
accepts nodes bound (suc fuel) zero p (node false l i r) h b z d le = absurd b
accepts nodes bound (suc fuel) (suc n) p (node false l i r) h b z d le =
    let size = length-append (order l) (i ∷ order r) in
    accepts_node nodes bound fuel (suc n) p false l i r h b z (within bound false l i r d)
      (accepts nodes bound fuel n i l h.2 b.0 z (λ j m. omega (arith, d j m))
        (omega (arith, size, le)))
      (accepts nodes bound fuel n i r h.3 b.1 z (λ j m. omega (arith, d j m))
        (omega (arith, size, le)))

in_use_beyond : (n j : ℕ) → n ≤ j → in_use n j ≡ 0
in_use_beyond n j le = ground arith

-- In a valid tree with nodes, check_pointers comes to an end and accepts the root.
pub check_pointers_lem :
    (t : Rbtree) (xs : List ℕ)
    → IsValid t xs
    → 0 < t.num_nodes
    → check_pointers t.next_free t.next_free t.nodes (root_of t.nodes) ≡ true
check_pointers_lem t xs v pos =
    let o = v.held pos in
    let size = length_places t.next_free xs v.counted in
    let same : length (order o.tree) ≡ length xs = ap (length {A = ℕ}) o.places in
    let beyond : (j : ℕ) → t.next_free ≤ j → in_tree j o.tree ≡ 0 = λ j le.
      sym (occurs-order j o.tree)
      ∙ ap (occurs j) o.places
      ∙ v.counted j
      ∙ in_use_beyond t.next_free j le in
    rw o.root (
      accepts t.nodes t.next_free t.next_free o.black 0 o.tree o.links
        (IsBalanced-weaken o.black o.tree o.balanced) o.nil beyond (omega (arith, size, same)))
