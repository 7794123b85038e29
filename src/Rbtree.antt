-- ===== src/Rbtree.antt =====
-- src/nft_rbtree.c: the red-black tree. Its nodes lie in one array, and refer to one another by
-- their places there; node zero is the sentinel, whose left child is the root.
pub mod Shape
pub mod Rotate
pub mod Turn
pub mod Colour
pub mod Fixup
pub mod Place
pub mod Insert
pub mod Valid
pub mod Create
pub mod Read
pub mod Validate
pub mod Delete
mod Tests
use nifty.Base.{
  ℕ, zero, suc, ◌+◌, ◌*◌, ◌%◌, ◌^◌, ◌||◌, Bool, true, false, not, ◌&&◌, ltb, leb, ◌==◌,
  if◌then◌else◌,
}
use nifty.Vector.{Sign, below}

pub data Side : Type 0 where
  left right : Side

-- right ^ 1
abbrev pub other : Side → Side
other left = right
other right = left

-- `nft_rbnode`
pub record Node : Type 0 where
  pub key : ℕ
  pub value : ℕ
  pub left : ℕ
  pub right : ℕ
  pub parent : ℕ
  pub red : Bool

abbrev pub Nodes : Type 0
Nodes = ℕ → Node

-- CHILD(n, w)
abbrev pub child : Node → Side → ℕ
child n left = n.left
child n right = n.right

abbrev pub with_child : Node → Side → ℕ → Node
with_child n left c = record n { left = c }
with_child n right c = record n { right = c }

abbrev pub set_node : Nodes → ℕ → Node → Nodes
set_node nodes i n j = if i == j then n else nodes j

abbrev pub set_child : Nodes → ℕ → Side → ℕ → Nodes
set_child nodes i w c = set_node nodes i (with_child (nodes i) w c)

abbrev pub set_parent : Nodes → ℕ → ℕ → Nodes
set_parent nodes i p = set_node nodes i (record (nodes i) { parent = p })

-- SET_RED and RESET_RED
abbrev pub set_red : Nodes → ℕ → Bool → Nodes
set_red nodes i b = set_node nodes i (record (nodes i) { red = b })

-- `nft_rbtree`, but for the comparator and the lock. `nodes` is NULL while `num_nodes` is zero.
pub record Rbtree : Type 0 where
  pub nodes : Nodes
  pub min_nodes : ℕ
  pub num_nodes : ℕ
  pub next_free : ℕ
  pub current : ℕ

-- ROOT
abbrev pub root_of : Nodes → ℕ
root_of nodes = (nodes 0).left

-- The comparator, on two keys and their data.
abbrev pub Compare : Type 0
Compare = (key key' value value' : ℕ) → Sign

abbrev pub is_below : Sign → Bool
is_below below = true
is_below _ = false

-- The sides of `(gs == LEFT(s))` and the like.
abbrev pub side_of : Bool → Side
side_of true = left
side_of false = right

-- rotate, the first half: the grandson takes the son as its child.
pub promote : Nodes → ℕ → ℕ → Side → Nodes
promote nodes s gs w =
    let nodes₁ = set_child nodes s w (child (nodes gs) (other w)) in
    let nodes₂ = set_parent nodes₁ (child (nodes₁ gs) (other w)) s in
    let nodes₃ = set_child nodes₂ gs (other w) s in set_parent nodes₃ s gs

pub rotate : Nodes → ℕ → ℕ → ℕ → Nodes
unfolding promote
rotate nodes node s gs =
    let nodes' = promote nodes s gs (side_of (gs == (nodes s).left)) in
    set_parent (set_child nodes' node (side_of (s == (nodes' node).left)) gs) gs node

-- attach_leaf: the new node, and the tree.
pub attach_leaf : Rbtree → ℕ → ℕ → ℕ → Side → ℕ × Rbtree
attach_leaf t parent key value which =
    let node = t.next_free in
    let leaf : Node = record {
      key = key;
      value = value;
      left = 0;
      right = 0;
      parent = parent;
      red = false;
    } in
    (
      node,
      record t {
        nodes = set_child (set_node t.nodes node leaf) parent which node;
        next_free = t.next_free + 1;
      },
    )

-- insert_fixup, the branch of a red uncle `y`: its colours, and the new `x`.
pub recolour : Nodes → ℕ → ℕ → ℕ → Nodes
recolour nodes y p gp = set_red (set_red (set_red nodes y false) p false) gp true

-- insert_fixup, the last rotation.
pub lift_parent : Nodes → ℕ → ℕ → Nodes
lift_parent nodes p gp =
    let nodes' = set_red (set_red nodes p false) gp true in rotate nodes' (nodes' gp).parent gp p

-- insert_fixup, the branch of a black uncle: the nodes, and the new `x`.
pub rebuild : Nodes → ℕ → ℕ → ℕ → Side → Nodes × ℕ
rebuild nodes x p gp w =
    if x == child (nodes p) w
    then (let nodes' = rotate nodes gp p x in
        let x' = child (nodes' x) (other w) in
        let p' = (nodes' x').parent in (lift_parent nodes' p' (nodes' p').parent, x'))
    else (lift_parent nodes p gp, x)

-- insert_fixup, one round of the loop, once the parent, the grandparent and the side of the uncle
-- are found.
pub fixup_below : Nodes → ℕ → ℕ → ℕ → Side → Nodes × ℕ
fixup_below nodes x p gp w =
    let y = child (nodes gp) w in
    if (nodes y).red then (recolour nodes y p gp, gp) else rebuild nodes x p gp w

pub fixup_round : Nodes → ℕ → Nodes × ℕ
fixup_round nodes x =
    let p = (nodes x).parent in
    let gp = (nodes p).parent in
    fixup_below nodes x p gp (if p == (nodes gp).left then right else left)

pub fixup_loop : ℕ → Nodes → ℕ → Nodes
fixup_loop zero nodes x = nodes
fixup_loop (suc fuel) nodes x =
    let rest = fixup_loop fuel (fixup_round nodes x).0 (fixup_round nodes x).1 in
    if not (x == root_of nodes) && (nodes (nodes x).parent).red then rest else nodes

pub insert_fixup : ℕ → Nodes → ℕ → Nodes
insert_fixup fuel nodes x =
    let nodes' = fixup_loop fuel nodes x in set_red nodes' (root_of nodes') false

module _ (cmp : Compare) where
  -- How the key and the value compare with those of a node.
  abbrev pub compare_at : Nodes → ℕ → ℕ → ℕ → Sign
  compare_at nodes key value i = cmp key (nodes i).key value (nodes i).value

  -- insert_node, the loop: the node to which the new leaf is attached, and its side.
  pub place_loop : ℕ → Nodes → ℕ → ℕ → ℕ → ℕ × Side
  place_loop zero nodes key value node = (node, left)
  place_loop (suc fuel) nodes key value node =
      let which = side_of (is_below (compare_at nodes key value node)) in
      let x = child (nodes node) which in
      let rest = place_loop fuel nodes key value x in if x == 0 then (node, which) else rest

  pub insert_node : Rbtree → ℕ → ℕ → Rbtree
  insert_node t key value =
      let (node, which) = place_loop t.next_free t.nodes key value (root_of t.nodes) in
      let (leaf, t') = attach_leaf t node key value which in
      record t' { nodes = insert_fixup t'.next_free (set_red t'.nodes leaf true) leaf }

-- The sentinel of new memory.
abbrev pub sentinel : Node
sentinel = record { key = 0; value = 0; left = 0; right = 0; parent = 0; red = false }

-- The size that resize_nodes allocates: its argument is an `int`, so half of the unsigned numbers
-- are negative to it, and less than two.
abbrev pub at_least_two : ℕ → ℕ
at_least_two n = if ltb (n % 2 ^ 32) 2 || leb (2 ^ 31) (n % 2 ^ 32) then 2 else n % 2 ^ 32

-- resize_nodes; `mem` tells whether `realloc` succeeds. Only the nodes below `num_nodes` are there.
pub resize_nodes : Bool → Rbtree → ℕ → Bool × Rbtree
resize_nodes mem t new_size =
    if mem
    then (
      true,
      record t {
        nodes = if t.num_nodes == 0 then set_node t.nodes 0 sentinel else t.nodes;
        num_nodes = at_least_two new_size;
      },
    )
    else (false, t)

-- The test for room, and the insertion, of rbtree_insert and rbtree_replace.
pub make_room : Bool → Rbtree → Rbtree
make_room mem t =
    if leb t.num_nodes t.next_free then (resize_nodes mem t (2 * t.num_nodes)).1 else t

pub insert_in_room : Compare → Rbtree → ℕ → ℕ → Bool × Rbtree
insert_in_room cmp t key value =
    if ltb t.next_free t.num_nodes
    then (
      true,
      if t.next_free == 1 then (attach_leaf t 0 key value left).1 else insert_node cmp t key value,
    )
    else (false, t)

pub rbtree_insert : Compare → Bool → Rbtree → ℕ → ℕ → Bool × Rbtree
rbtree_insert cmp mem t key value = insert_in_room cmp (make_room mem t) key value
