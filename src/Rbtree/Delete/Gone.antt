-- ===== src/Rbtree/Delete/Gone.antt =====
-- delete_node: the entries without the one that goes, where its node has one child at most.
use mathlib.Core.Path.{subst}
use mathlib.Core.List.{append_assoc, append-nil}
use nifty.Base.{ℕ, ◌+◌, ◌≤◌, ◌<◌, ◌≡◌, ◌≢◌, ◌∙◌, ap, Bool, List, [], ◌∷◌, ◌++◌, length, arith}
use nifty.Rbtree.{Rbtree, Side, left, right, Nodes}
use nifty.Rbtree.Shape.{
  Tree, leaf, order, Rim, none, rim, around, height, occurs, occurs-around, occurs-order, one_if,
  in_tree-fork, fork,
}
use nifty.Rbtree.Place.{length-around, height-le-rim_size}
use nifty.Rbtree.Fixup.{places_count}
use nifty.Rbtree.Valid.{in_use, length_places, counted-AreApart}
use nifty.Rbtree.Insert.Sorted.{Entry, entry, entries_at, entries_at_same}
use nifty.Rbtree.Delete.{remove_node, move_last}
use nifty.Rbtree.Delete.Splice.{remove_node_lem}
use nifty.Rbtree.Delete.Locate.{IsFocus, entries_at-append}
use nifty.Rbtree.Delete.Settle.{IsSettled, move_last_lem}

-- The list `es` without the entry `e`, which stands in it.
pub record IsWithout (e : Entry) (es es' : List Entry) : Type 0 where
  pub front : List Entry
  pub back : List Entry
  pub whole : es ≡ front ++ (e ∷ back)
  pub rest : es' ≡ front ++ back

pub IsWithout-around :
    (nodes : Nodes) (i : ℕ) (z : Rim) (js ks : List ℕ)
    → IsWithout
        (entry (nodes i))
        (entries_at nodes (around z (js ++ (i ∷ ks))))
        (entries_at nodes (around z (js ++ ks)))
IsWithout-around nodes i none js ks = record {
  front = entries_at nodes js;
  back = entries_at nodes ks;
  whole = entries_at-append nodes js (i ∷ ks);
  rest = entries_at-append nodes js ks;
}
IsWithout-around nodes i (rim left c m t z) js ks =
    rw (append_assoc js (i ∷ ks) (m ∷ order t), append_assoc js ks (m ∷ order t))
      (IsWithout-around nodes i z js (ks ++ (m ∷ order t)))
IsWithout-around nodes i (rim right c m t z) js ks =
    rw (← append_assoc (order t) (m ∷ js) (i ∷ ks), ← append_assoc (order t) (m ∷ js) ks)
      (IsWithout-around nodes i z (order t ++ (m ∷ js)) ks)

alone :
    (nodes : Nodes) (w : Side) (c : Bool) (y : ℕ) (u : Tree) (z : Rim)
    → IsWithout
        (entry (nodes y))
        (entries_at nodes (around z (order (fork w c y u leaf))))
        (entries_at nodes (around z (order u)))
alone nodes left c y u z =
    subst
      (λ (js : List ℕ).
        IsWithout (entry (nodes y)) (entries_at nodes (around z (order u ++ (y ∷ []))))
          (entries_at nodes (around z js)))
      (append-nil (order u)) (IsWithout-around nodes y z (order u) [])
alone nodes right c y u z = IsWithout-around nodes y z [] (order u)

-- The outcome of a deletion.
pub record IsDeleted (e : Entry) (es : List Entry) (t : Rbtree) : Type 0 where
  pub left_over : List Entry
  pub without : IsWithout e es left_over
  pub settled : IsSettled left_over t

-- A node with one child at most goes, from a tree whose walk stands elsewhere.
module _ (t : Rbtree) (xs : List ℕ) (w : Side) (c : Bool) (y : ℕ) (u : Tree) (z : Rim) (n : ℕ)
    (counted : (j : ℕ) → occurs j xs ≡ in_use t.next_free j) (some : 0 < t.next_free)
    (room : t.next_free ≤ t.num_nodes) (f : IsFocus xs t.nodes z n (fork w c y u leaf)) where
  fuel : height z < t.next_free
  fuel = omega (
    arith,
    height-le-rim_size z,
    length-around z (order (fork w c y u leaf)),
    ap (length {A = ℕ}) f.at.places,
    length_places t.next_free xs counted,
    some,
  )

  gone_count : (j : ℕ) → occurs j (around z (order u)) + one_if j y ≡ occurs j xs
  gone_count j = omega (
    arith,
    places_count xs z (fork w c y u leaf) j f.at.places,
    in_tree-fork j w c y u leaf,
    occurs-around j z (order u),
    occurs-order j u,
  )

  pub gone :
      t.current < t.next_free
      → t.current ≢ y
      → IsSettled
          (entries_at t.nodes (around z (order u)))
          (move_last (record t { nodes = remove_node t.next_free t.nodes y }) y)
  gone walk aside =
      let (held, content) =
        remove_node_lem xs t.nodes w c y u z n t.next_free (counted-AreApart t.next_free xs counted)
          f.at f.balanced f.beyond fuel in
      let o =
        move_last_lem (record t { nodes = remove_node t.next_free t.nodes y }) (around z (order u))
          y
          (record {
            held = held;
            counted = λ j. gone_count j ∙ counted j;
            room = room;
            walk = walk;
            aside = aside;
          }) in
      record {
        places = o.places;
        valid = o.valid;
        entries =
            o.entries
            ∙ entries_at_same t.nodes (remove_node t.next_free t.nodes y) (around z (order u))
                (λ j h. content.contents j);
      }

  pub alone-IsWithout :
      IsWithout
        (entry (t.nodes y))
        (entries_at t.nodes xs)
        (entries_at t.nodes (around z (order u)))
  alone-IsWithout =
      subst
        (λ (js : List ℕ).
          IsWithout (entry (t.nodes y)) (entries_at t.nodes js)
            (entries_at t.nodes (around z (order u))))
        f.at.places (alone t.nodes w c y u z)
