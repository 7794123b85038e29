-- ===== src/Rbtree/Read.antt =====
-- The functions of src/nft_rbtree.c that read the tree: the search, the walk in order, and the
-- replacement of an entry, which searches for it first.
pub mod Walk
pub mod Search
use nifty.Base.{
  ℕ, zero, suc, ◌+◌, ◌-◌, Bool, true, false, not, ◌&&◌, ltb, leb, ◌==◌, if◌then◌else◌, Option, none,
  some,
}
use nifty.Vector.{is_same}
use nifty.Rbtree.{
  Rbtree, Compare, Nodes, Node, left, right, child, set_node, root_of, side_of, is_below,
  compare_at, make_room, insert_in_room,
}

-- node_first and node_successor, the way down the left children.
pub leftmost : ℕ → Nodes → ℕ → ℕ
leftmost zero nodes node = node
leftmost (suc fuel) nodes node =
    let rest = leftmost fuel nodes (nodes node).left in
    if (nodes node).left == 0 then node else rest

pub node_first : Rbtree → ℕ
node_first t =
    if t.num_nodes == 0
    then 0
    else if root_of t.nodes == 0
    then 0
    else leftmost t.next_free t.nodes (root_of t.nodes)

-- node_successor, the way up from right children.
pub climb : ℕ → Nodes → ℕ → ℕ
climb zero nodes node = (nodes node).parent
climb (suc fuel) nodes node =
    let parent = (nodes node).parent in
    let rest = climb fuel nodes parent in
    if not (parent == 0) && (node == (nodes parent).right) then rest else parent

pub node_successor : Rbtree → ℕ → ℕ
node_successor t node =
    if not ((t.nodes node).right == 0)
    then leftmost t.next_free t.nodes (t.nodes node).right
    else climb t.next_free t.nodes node

-- The search loop: where it ends, and whether the last comparison found the key.
pub search_loop : Compare → ℕ → Nodes → ℕ → ℕ → ℕ → ℕ × Bool
search_loop cmp zero nodes key token node = (node, false)
search_loop cmp (suc fuel) nodes key token node =
    let sign = compare_at cmp nodes key token node in
    let rest =
      search_loop cmp fuel nodes key token (child (nodes node) (side_of (is_below sign))) in
    if node == 0 then (0, false) else if is_same sign then (node, true) else rest

-- What `*data` holds, or NULL where there is no place for it.
abbrev pub token_of : Option ℕ → ℕ
token_of none = 0
token_of (some d) = d

abbrev pub stored : Option ℕ → ℕ → Option ℕ
stored none d = none
stored (some _) d = some d

-- rbtree_search: whether the key was found, and `*data` afterwards. `none` is a read through a null
-- pointer, where the tree has no nodes yet.
pub rbtree_search : Compare → Rbtree → ℕ → Option ℕ → Option (Bool × Option ℕ)
rbtree_search cmp t key place =
    if t.num_nodes == 0
    then none
    else (let (node, found) =
          search_loop cmp t.next_free t.nodes key (token_of place) (root_of t.nodes) in
        some (found, if found then stored place (t.nodes node).value else place))

-- rbtree_replace: the result, `*data` afterwards, and the tree.
pub rbtree_replace : Compare → Bool → Rbtree → ℕ → ℕ → Option (ℕ × ℕ × Rbtree)
rbtree_replace cmp mem t key value =
    if t.num_nodes == 0
    then none
    else (let (node, found) = search_loop cmp t.next_free t.nodes key value (root_of t.nodes) in
        if found
        then some (
          2,
          (t.nodes node).value,
          record t {
            nodes = set_node t.nodes node (record (t.nodes node) { key = key; value = value });
          },
        )
        else (let (done, t') = insert_in_room cmp (make_room mem t) key value in
            some (if done then 1 else 0, value, t')))

pub rbtree_count : Rbtree → ℕ
rbtree_count t = t.next_free - 1

-- rbtree_walk_first_r: the first entry, if there is one, and `*walk`.
pub rbtree_walk_first_r : Rbtree → ℕ → Option (ℕ × ℕ) × ℕ
rbtree_walk_first_r t walk =
    let node = node_first t in
    if node == 0
    then (none, walk)
    else (some ((t.nodes node).key, (t.nodes node).value), node_successor t node)

pub rbtree_walk_next_r : Rbtree → ℕ → Option (ℕ × ℕ) × ℕ
rbtree_walk_next_r t walk =
    if leb t.next_free walk
    then (none, walk)
    else if walk == 0
    then (none, walk)
    else (some ((t.nodes walk).key, (t.nodes walk).value), node_successor t walk)

pub rbtree_walk_first : Rbtree → Option (ℕ × ℕ) × Rbtree
rbtree_walk_first t =
    let (e, walk) = rbtree_walk_first_r t t.current in (e, record t { current = walk })

pub rbtree_walk_next : Rbtree → Option (ℕ × ℕ) × Rbtree
rbtree_walk_next t =
    let (e, walk) = rbtree_walk_next_r t t.current in (e, record t { current = walk })

module _ {S : Type 0} where
  -- rbtree_apply, the loop: the number of calls, and what they make of a state.
  unfoldable pub apply_loop : ℕ → Rbtree → (S → ℕ → ℕ → S) → ℕ → ℕ × S → ℕ × S
  apply_loop zero t f node s = s
  apply_loop (suc fuel) t f node (num, s) =
      let rest =
        apply_loop fuel t f (node_successor t node)
          (num + 1, f s (t.nodes node).key (t.nodes node).value) in
      if node == 0 then (num, s) else rest

  unfoldable pub rbtree_apply : Rbtree → (S → ℕ → ℕ → S) → S → ℕ × S
  rbtree_apply t f s = apply_loop t.next_free t f (node_first t) (0, s)
