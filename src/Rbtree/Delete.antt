-- ===== src/Rbtree/Delete.antt =====
-- src/nft_rbtree.c, rbtree_delete: a node is taken out of the tree, the tree is rebalanced, and the
-- last node of the array takes the free place.
pub mod Moves
pub mod Sibling
pub mod Nephews
pub mod Ending
pub mod Round
pub mod Loop
pub mod Hang
pub mod Splice
pub mod Locate
pub mod Writes
pub mod Last
pub mod Settle
pub mod First
pub mod Gone
pub mod Next
pub mod Node
pub mod Entry
use nifty.Base.{
  ℕ, zero, suc, ◌-◌, ◌/◌, Bool, true, false, not, ◌&&◌, ◌||◌, ltb, leb, ◌==◌, if◌then◌else◌, Option,
  none, some,
}
use nifty.Rbtree.{
  Rbtree, Compare, Nodes, Side, left, right, other, child, set_node, set_child, set_parent, set_red,
  root_of, side_of, rotate, resize_nodes,
}
use nifty.Rbtree.Read.{node_successor, search_loop, token_of, stored}

-- delete_fixup, a red sibling `w`: it comes up, and a black node takes its place.
pub lift_sibling : Nodes → ℕ → Side → Nodes
lift_sibling nodes p v =
    let w = child (nodes p) v in
    if (nodes w).red
    then (let nodes' = set_red (set_red nodes w false) p true in
        rotate nodes' (nodes' p).parent p w)
    else nodes

-- delete_fixup, a sibling with a red child on the near side only: the child comes up.
pub lift_nephew : Nodes → ℕ → Side → Nodes
lift_nephew nodes p v =
    let w = child (nodes p) v in
    if not (nodes (child (nodes w) v)).red
    then (let nodes' = set_red (set_red nodes (child (nodes w) (other v)) false) w true in
        rotate nodes' p w (child (nodes' w) (other v)))
    else nodes

-- delete_fixup, the last rotation, which ends the loop; `c` is the colour of the parent.
pub lift_coloured : Nodes → ℕ → ℕ → Side → Bool → Nodes
lift_coloured nodes p w v c =
    let nodes₁ = set_red nodes w c in
    let nodes₂ = set_red nodes₁ p false in
    let nodes₃ = set_red nodes₂ (child (nodes₂ w) v) false in rotate nodes₃ (nodes₃ p).parent p w

pub lift_last : Nodes → ℕ → Side → Nodes
lift_last nodes p v = lift_coloured nodes p (child (nodes p) v) v (nodes p).red

-- Where the loop goes on, or ends: the array, and `x`.
pub data Progress : Type 0 where
  again done : Nodes → ℕ → Progress

-- delete_fixup, one round of the loop once the sibling is black, and from the side of the sibling on.
pub fixup_nephews : Nodes → ℕ → Side → Progress
fixup_nephews nodes p v =
    let w = child (nodes p) v in
    if not (nodes (nodes w).left).red && not (nodes (nodes w).right).red
    then again (set_red nodes w true) p
    else (let nodes' = lift_last (lift_nephew nodes p v) p v in done nodes' (root_of nodes'))

pub fixup_beside : Nodes → ℕ → Side → Progress
fixup_beside nodes p v = fixup_nephews (lift_sibling nodes p v) p v

pub delete_loop : ℕ → Nodes → ℕ → Nodes × ℕ
delete_loop zero nodes x = (nodes, x)
delete_loop (suc fuel) nodes x =
    let p = (nodes x).parent in
    let v = if x == (nodes p).left then right else left in
    if not (x == root_of nodes) && not (nodes x).red
    then elim (fixup_beside nodes p v) [
      | again nodes' x' ↦ delete_loop fuel nodes' x'
      | done nodes' x' ↦ (nodes', x')
    ]
    else (nodes, x)

pub delete_fixup : ℕ → Nodes → ℕ → Nodes
delete_fixup fuel nodes x = let (nodes', x') = delete_loop fuel nodes x in set_red nodes' x' false

-- delete_node, the choice of the node `y` to remove, and the walk that it disturbs.
pub choose_removed : Rbtree → ℕ → ℕ × Rbtree
choose_removed t z =
    if ((t.nodes z).left == 0) || ((t.nodes z).right == 0)
    then (z, if t.current == z then record t { current = node_successor t z } else t)
    else (let y = node_successor t z in
        let nodes' =
          set_node t.nodes z
            (record (t.nodes z) { key = (t.nodes y).key; value = (t.nodes y).value }) in
        (y, record t { nodes = nodes'; current = if t.current == y then z else t.current }))

-- delete_node, the removal of `y`: its child `x` takes its place.
pub splice_out : Nodes → ℕ → ℕ × Nodes
splice_out nodes y =
    let x = if not ((nodes y).left == 0) then (nodes y).left else (nodes y).right in
    let p = (nodes y).parent in
    let nodes' = set_parent nodes x p in (x, set_child nodes' p (side_of ((nodes' p).left == y)) x)

-- delete_node, the removal of `y` with the rebalancing.
pub remove_node : ℕ → Nodes → ℕ → Nodes
remove_node fuel nodes y =
    let (x, nodes') = splice_out nodes y in
    if (nodes' y).red then nodes' else delete_fixup fuel nodes' x

-- delete_node, the end: the last node `z` of the array moves to the place `y`.
pub move_node : Nodes → ℕ → ℕ → Nodes
move_node nodes z y =
    let nodes₁ = set_node nodes y (nodes z) in
    let nodes₂ = set_parent nodes₁ (nodes₁ z).left y in
    let nodes₃ = set_parent nodes₂ (nodes₂ z).right y in
    let p = (nodes₃ z).parent in set_child nodes₃ p (side_of ((nodes₃ p).left == z)) y

pub move_last : Rbtree → ℕ → Rbtree
move_last t y =
    let z = t.next_free - 1 in
    if y == z then record t { next_free = z } else record t {
      nodes = move_node t.nodes z y;
      next_free = z;
      current = if t.current == z then y else t.current;
    }

pub delete_node : Rbtree → ℕ → Rbtree
delete_node t z =
    let (y, t') = choose_removed t z in
    move_last (record t' { nodes = remove_node t.next_free t'.nodes y }) y

-- rbtree_delete, the shrinking of a tree of which less than a quarter is in use.
pub shrink_nodes : Bool → Rbtree → Rbtree
shrink_nodes mem t =
    if ltb t.next_free (t.num_nodes / 4) && leb t.min_nodes (t.num_nodes / 2)
    then (resize_nodes mem t (t.num_nodes / 2)).1
    else t

-- rbtree_delete: whether the key was found, `*data` afterwards, and the tree; `none` is a read
-- through a null pointer.
pub rbtree_delete : Compare → Bool → Rbtree → ℕ → Option ℕ → Option (Bool × Option ℕ × Rbtree)
rbtree_delete cmp mem t key place =
    if t.num_nodes == 0
    then none
    else (let (node, found) =
          search_loop cmp t.next_free t.nodes key (token_of place) (root_of t.nodes) in
        if found
        then some (true, stored place (t.nodes node).value, shrink_nodes mem (delete_node t node))
        else some (false, place, t))
