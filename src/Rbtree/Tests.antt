-- ===== src/Rbtree/Tests.antt =====
-- Runs on a small tree, which hold the theorems to concrete inputs.
use nifty.Base.{
  ℕ, zero, suc, ◌+◌, ◌*◌, ◌≡◌, inl, refl, true, false, ltb, ◌==◌, if◌then◌else◌, List, [], ◌∷◌,
  ◌++◌, some, pos, arith,
}
use nifty.Vector.{below, same, above}
use nifty.Rbtree.{
  Rbtree, Compare, Nodes, sentinel, rbtree_insert, root_of, make_room, resize_nodes, insert_in_room,
  insert_node, attach_leaf, place_loop, insert_fixup, fixup_loop, fixup_round, fixup_below, rebuild,
  lift_parent, rotate, promote, recolour,
}
use nifty.Rbtree.Shape.{leaf, node, occurs, one_if}
use nifty.Rbtree.Create.{rbtree_vnew, rbtree_vnew_lem, Holds, insertion_sort}
use nifty.Rbtree.Delete.{rbtree_delete}
use nifty.Rbtree.Delete.Entry.{Deletes, rbtree_delete_lem}
use nifty.Rbtree.Valid.{IsValid}
use nifty.Rbtree.Validate.{rbtree_validate}
use nifty.Rbtree.Validate.Keys.{in_order, rbtree_validate_lem}
use nifty.Rbtree.Read.{rbtree_apply, rbtree_count, rbtree_search}
use nifty.Rbtree.Read.Walk.{rbtree_apply_lem, fold_entries}
use nifty.Rbtree.Read.Search.{Finds, rbtree_search_lem}
use nifty.Rbtree.Insert.Sorted.{entries_at, IsOrder, IsSorted}
use nifty.Rbtree.Insert.Room.{Inserts, rbtree_insert_lem}

abbrev by_key : Compare
by_key key key' value value' = if ltb key key' then below else if key == key' then same else above

by_key-IsOrder : IsOrder by_key
by_key-IsOrder = record {
  le_trans = λ a b c h k. ground arith;
  gt_trans = λ a b c h k. ground arith;
  lt_asym = λ a b h. ground arith;
}

-- A black root with the key 10, and its right child, a red node with the key 20.
abbrev two_nodes : Nodes
two_nodes j =
    if j == 0
    then record { key = 0; value = 0; left = 1; right = 0; parent = 0; red = false }
    else if j == 1
    then record { key = 10; value = 100; left = 0; right = 2; parent = 0; red = false }
    else record { key = 20; value = 200; left = 0; right = 0; parent = 1; red = true }

abbrev two : Rbtree
two = record { nodes = two_nodes; min_nodes = 4; num_nodes = 4; next_free = 3; current = 0 }

two-IsValid : IsValid two (1 ∷ 2 ∷ [])
unfolding occurs one_if
two-IsValid = record {
  positive = omega arith;
  fits = inl (omega arith);
  held = λ _. record {
    tree = node false leaf 1 (node true leaf 2 leaf);
    black = 1;
    links = (
      omega arith,
      record { parent = refl; red = refl; near = refl; far = refl },
      tt,
      (omega arith, record { parent = refl; red = refl; near = refl; far = refl }, tt, tt),
    );
    root = refl;
    balanced = (refl, (refl, refl, refl));
    nil = refl;
    places = refl;
  };
  counted = λ j. ground arith;
  walk = omega arith;
}

two-IsSorted : IsSorted by_key (entries_at two_nodes (1 ∷ 2 ∷ []))
two-IsSorted = ((refl, tt), (tt, tt))

-- A third node below the red one makes the code rotate.
rbtree_insert_example :
    Inserts by_key two (1 ∷ 2 ∷ []) (30, 300) (rbtree_insert by_key false two 30 300) false
rbtree_insert_example =
    rbtree_insert_lem by_key false two 30 300 (1 ∷ 2 ∷ []) by_key-IsOrder two-IsValid two-IsSorted
      (omega arith)

rbtree_search_example :
    Finds by_key two (1 ∷ 2 ∷ []) 20 (some 0) (rbtree_search by_key two 20 (some 0))
rbtree_search_example =
    rbtree_search_lem by_key two 20 (some 0) (1 ∷ 2 ∷ []) by_key-IsOrder two-IsValid two-IsSorted
      (omega arith)

rbtree_apply_example :
    (rbtree_count two ≡ 2)
    × (rbtree_apply two (λ (s : ℕ) k d. s + k * d) 0
        ≡ (2, fold_entries (λ (s : ℕ) k d. s + k * d) 0 (entries_at two_nodes (1 ∷ 2 ∷ []))))
rbtree_apply_example = rbtree_apply_lem (λ (s : ℕ) k d. s + k * d) two 0 (1 ∷ 2 ∷ []) two-IsValid

rbtree_validate_example :
    rbtree_validate by_key two ≡ some (in_order by_key ((10, 100) ∷ (20, 200) ∷ []))
rbtree_validate_example =
    rbtree_validate_lem by_key two (1 ∷ 2 ∷ []) two-IsValid (omega arith) (omega arith)

rbtree_vnew_example :
    (t : Rbtree) × (rbtree_vnew by_key true true two_nodes
        (pos 2)
        ((20, 1) ∷ (10, 2) ∷ (20, 3) ∷ [])
      ≡ some t)
    × Holds by_key (insertion_sort by_key ((20, 1) ∷ (10, 2) ∷ (20, 3) ∷ []) []) t
rbtree_vnew_example =
    rbtree_vnew_lem by_key two_nodes 2 ((20, 1) ∷ (10, 2) ∷ (20, 3) ∷ []) by_key-IsOrder
      (omega arith)

rbtree_delete_example :
    Deletes by_key two (1 ∷ 2 ∷ []) 10 (some 0) (rbtree_delete by_key true two 10 (some 0))
rbtree_delete_example =
    rbtree_delete_lem by_key true two 10 (some 0) (1 ∷ 2 ∷ []) by_key-IsOrder two-IsValid
      two-IsSorted (omega arith) (omega arith)

-- Four keys in falling and rising order.
abbrev empty_tree : Rbtree
empty_tree = record {
  nodes = λ _. sentinel;
  min_nodes = 0;
  num_nodes = 0;
  next_free = 1;
  current = 0;
}

insert_all : List ℕ → Rbtree → Rbtree
insert_all [] t = t
insert_all (k ∷ ks) t = insert_all ks (rbtree_insert by_key true t k (k * 10)).1

-- The keys in order, a red one with a thousand added.
dump : ℕ → Nodes → ℕ → List ℕ
dump zero nodes i = []
dump (suc f) nodes i =
    if i == 0
    then []
    else dump f nodes (nodes i).left
      ++ (((nodes i).key + (if (nodes i).red then 1000 else 0)) ∷ dump f nodes (nodes i).right)

insert_four : Rbtree
insert_four = insert_all (5 ∷ 3 ∷ 4 ∷ 8 ∷ []) empty_tree

insert_four_dump : dump 4 insert_four.nodes (root_of insert_four.nodes) ≡ 3 ∷ 4 ∷ 5 ∷ 1008 ∷ []
unfolding insert_four insert_all dump rbtree_insert make_room resize_nodes insert_in_room
    insert_node attach_leaf place_loop insert_fixup fixup_loop fixup_round fixup_below rebuild
    lift_parent rotate promote recolour
insert_four_dump = refl
