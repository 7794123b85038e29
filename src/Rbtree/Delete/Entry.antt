-- ===== src/Rbtree/Delete/Entry.antt =====
-- rbtree_delete: the entry that compares the same as the key goes.
use mathlib.Core.Path.{subst}
use native.Mathlib.Nat.{mod-eq_of_lt}
use nifty.Base.{
  ℕ, ◌/◌, ◌≤◌, ◌<◌, ◌^◌, ◌%◌, ◌≡◌, ◌∙◌, refl, sym, Bool, true, false, ◌&&◌, Option, some, List, [],
  ◌∷◌, ◌++◌, ltb, leb, if◌then◌else◌, arith, Bool-cases, inl, inr,
}
use nifty.Vector.{is_same}
use nifty.Rbtree.{Rbtree, Compare, root_of, resize_nodes, at_least_two}
use nifty.Rbtree.Place.{positive_test}
use nifty.Rbtree.Valid.{IsValid}
use nifty.Rbtree.Read.{search_loop, token_of, stored}
use nifty.Rbtree.Read.Search.{any_same, search_loop_lem}
use nifty.Rbtree.Insert.Sorted.{Entry, entry, entries_at, IsOrder, IsSorted, NoneBelow}
use nifty.Rbtree.Insert.Room.{resize_nodes_lem, resize_nodes_fails}
use nifty.Rbtree.Delete.{delete_node, choose_removed, move_last, shrink_nodes, rbtree_delete}
use nifty.Rbtree.Delete.Settle.{IsSettled}
use nifty.Rbtree.Delete.Gone.{IsWithout, IsDeleted}
use nifty.Rbtree.Delete.Node.{delete_node_lem}

shrunk :
    (mem : Bool) (es : List Entry) (t : Rbtree) (n : ℕ)
    → t.next_free ≤ at_least_two n
    → IsSettled es t
    → IsSettled es (resize_nodes mem t n).1
shrunk true es t n le s =
    let o = (resize_nodes_lem t s.places n s.valid le).1 in
    record { places = s.places; valid = o.valid; entries = o.entries ∙ s.entries }
shrunk false es t n le s = rw (resize_nodes_fails t n) s

num_nodes-delete_node : (t : Rbtree) (i : ℕ) → (delete_node t i).num_nodes ≡ t.num_nodes
unfolding delete_node move_last choose_removed
num_nodes-delete_node t i = ground arith

half_fits : (n k : ℕ) → n < 2 ^ 32 → k < n / 4 → k ≤ at_least_two (n / 2)
half_fits n k small le =
    let whole : (n / 2) % 2 ^ 32 ≡ n / 2 = mod-eq_of_lt (omega arith) in rw whole (ground arith)

shrink_nodes-IsSettled :
    (mem : Bool) (es : List Entry) (t : Rbtree)
    → t.num_nodes < 2 ^ 32
    → IsSettled es t
    → IsSettled es (shrink_nodes mem t)
unfolding shrink_nodes
shrink_nodes-IsSettled mem es t small s =
    elim (Bool-cases (ltb t.next_free (t.num_nodes / 4) && leb t.min_nodes (t.num_nodes / 2))) [
      | inl e ↦ rw e (
          shrunk mem es t (t.num_nodes / 2)
            (half_fits t.num_nodes t.next_free small (ground (arith, e))) s)
      | inr e ↦ rw e s
    ]

module _ (cmp : Compare) where
  NoneBelow-without :
      (a e : Entry) (front back : List Entry)
      → NoneBelow cmp a (front ++ (e ∷ back))
      → NoneBelow cmp a (front ++ back)
  NoneBelow-without a e [] back h = h.1
  NoneBelow-without a e (b ∷ bs) back h = (h.0, NoneBelow-without a e bs back h.1)

  IsSorted-without :
      (e : Entry) (front back : List Entry)
      → IsSorted cmp (front ++ (e ∷ back))
      → IsSorted cmp (front ++ back)
  IsSorted-without e [] back s = s.1
  IsSorted-without e (b ∷ bs) back s =
      (NoneBelow-without b e bs back s.0, IsSorted-without e bs back s.1)

  without-IsSorted :
      (e : Entry) (es es' : List Entry) → IsWithout e es es' → IsSorted cmp es → IsSorted cmp es'
  without-IsSorted e es es' w s =
      subst (IsSorted cmp) (sym w.rest)
        (IsSorted-without e w.front w.back (subst (IsSorted cmp) w.whole s))

  -- The outcome of rbtree_delete.
  pub record Deletes (t : Rbtree) (xs : List ℕ) (key : ℕ) (place : Option ℕ)
      (r : Option (Bool × Option ℕ × Rbtree)) : Type 0 where
    pub found : Bool
    pub at : ℕ
    pub left : Rbtree
    pub result : r ≡ some (found, if found then stored place (t.nodes at).value else place, left)
    pub exactly : found ≡ any_same cmp (key, token_of place) (entries_at t.nodes xs)
    pub agrees :
        found ≡ true → is_same (cmp key (t.nodes at).key (token_of place) (t.nodes at).value) ≡ true
    pub deleted : found ≡ true → IsDeleted (entry (t.nodes at)) (entries_at t.nodes xs) left
    pub sorted : (h : found ≡ true) → IsSorted cmp (deleted h).left_over
    pub kept : found ≡ false → left ≡ t

  -- With an order for its comparator, rbtree_delete in a valid and sorted tree that has an array of
  -- nodes, less than 2 ^ 32, returns true exactly where some entry compares the same as the key. Then it takes one such
  -- entry out, of which it stores the data where there is a place for it, and leaves a valid (so also
  -- red-black) and sorted tree with the other entries. Else it changes nothing.
  pub rbtree_delete_lem :
      (mem : Bool) (t : Rbtree) (key : ℕ) (place : Option ℕ) (xs : List ℕ)
      → IsOrder cmp
      → IsValid t xs
      → IsSorted cmp (entries_at t.nodes xs)
      → 0 < t.num_nodes
      → t.num_nodes < 2 ^ 32
      → Deletes t xs key place (rbtree_delete cmp mem t key place)
  unfolding rbtree_delete
  rbtree_delete_lem mem t key place xs o v s pos small =
      let r = search_loop cmp t.next_free t.nodes key (token_of place) (root_of t.nodes) in
      let searched = search_loop_lem cmp t key (token_of place) xs o v s pos in
      elim (Bool-cases r.1) [
        | inl e ↦
            let gone = delete_node_lem t xs r.0 v pos (searched.inside e) in
            record {
              found = true;
              at = r.0;
              left = shrink_nodes mem (delete_node t r.0);
              result = rw (positive_test t.num_nodes pos, e) refl;
              exactly = sym e ∙ searched.found;
              agrees = λ _. searched.agrees e;
              deleted = λ _. record {
                left_over = gone.left_over;
                without = gone.without;
                settled =
                    shrink_nodes-IsSettled mem gone.left_over (delete_node t r.0)
                      (omega (arith, num_nodes-delete_node t r.0, small)) gone.settled;
              };
              sorted = λ _.
                  without-IsSorted (entry (t.nodes r.0)) (entries_at t.nodes xs) gone.left_over
                    gone.without s;
              kept = λ h. absurd (cc h);
            }
        | inr e ↦ record {
          found = false;
          at = r.0;
          left = t;
          result = rw (positive_test t.num_nodes pos, e) refl;
          exactly = sym e ∙ searched.found;
          agrees = λ h. absurd (cc h);
          deleted = λ h. absurd (cc h);
          sorted = λ h. absurd (cc h);
          kept = λ _. refl;
        }
      ]
