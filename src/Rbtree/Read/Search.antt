-- ===== src/Rbtree/Read/Search.antt =====
-- rbtree_search finds a key exactly where an entry of the tree compares the same.
use nifty.Base.{
  ℕ, zero, suc, ◌<◌, ◌≡◌, ◌∙◌, ◌⊎◌, refl, sym, ap, Bool, true, false, ◌||◌, List, [], ◌∷◌, ◌++◌,
  if◌then◌else◌, arith, length, length-append, Option, some, inl, inr,
}
use nifty.Vector.{Sign, below, same, above, is_same}
use nifty.Rbtree.{Rbtree, Compare, Nodes, root_of, is_below, compare_at}
use nifty.Rbtree.Read.{search_loop, rbtree_search, token_of, stored}
use nifty.Rbtree.Shape.{Tree, leaf, node, top, order, occurs, occurs-append, one_if_self, IsTree}
use nifty.Rbtree.Place.{positive_test}
use nifty.Rbtree.Valid.{IsValid, length_places}
use nifty.Rbtree.Insert.Sorted.{Entry, entry, entries_at, IsOrder, IsSorted, NoneBelow, less, sign}

below_not_same : (s : Sign) → is_below s ≡ true → is_same s ≡ false
below_not_same below h = refl
below_not_same same h = cc
below_not_same above h = refl

Sign-cases : (s : Sign) → (s ≡ below) ⊎ (s ≡ same) ⊎ (s ≡ above)
Sign-cases below = inl refl
Sign-cases same = inr (inl refl)
Sign-cases above = inr (inr refl)

or_true : (a : Bool) → (a || true) ≡ true
or_true true = refl
or_true false = refl

module _ (cmp : Compare) where
  -- Whether an entry compares the same.
  abbrev pub any_same : Entry → List Entry → Bool
  any_same e [] = false
  any_same e (a ∷ es) = is_same (sign cmp e a) || any_same e es

  any_same-append :
      (nodes : Nodes) (e : Entry) (js ks : List ℕ)
      → any_same e (entries_at nodes (js ++ ks))
        ≡ any_same e (entries_at nodes js) || any_same e (entries_at nodes ks)
  any_same-append nodes e [] ks = refl
  any_same-append nodes e (j ∷ js) ks = ground (arith, any_same-append nodes e js ks)

  none_left :
      (nodes : Nodes) (a : Entry) (js ks : List ℕ)
      → NoneBelow cmp a (entries_at nodes (js ++ ks))
      → NoneBelow cmp a (entries_at nodes js)
  none_left nodes a [] ks n = tt
  none_left nodes a (j ∷ js) ks n = (n.0, none_left nodes a js ks n.1)

  IsSorted-left :
      (nodes : Nodes) (js ks : List ℕ)
      → IsSorted cmp (entries_at nodes (js ++ ks))
      → IsSorted cmp (entries_at nodes js)
  IsSorted-left nodes [] ks s = tt
  IsSorted-left nodes (j ∷ js) ks s =
      (none_left nodes (entry (nodes j)) js ks s.0, IsSorted-left nodes js ks s.1)

  IsSorted-right :
      (nodes : Nodes) (js ks : List ℕ)
      → IsSorted cmp (entries_at nodes (js ++ ks))
      → IsSorted cmp (entries_at nodes ks)
  IsSorted-right nodes [] ks s = s
  IsSorted-right nodes (j ∷ js) ks s = IsSorted-right nodes js ks s.1

  none_at :
      (nodes : Nodes) (a : Entry) (i : ℕ) (js ks : List ℕ)
      → NoneBelow cmp a (entries_at nodes (js ++ (i ∷ ks)))
      → less cmp (entry (nodes i)) a ≡ false
  none_at nodes a i [] ks n = n.0
  none_at nodes a i (j ∷ js) ks n = none_at nodes a i js ks n.1

  -- No entry behind one that is above the key compares the same.
  none_same_right :
      IsOrder cmp
      → (nodes : Nodes) (e a : Entry) (ks : List ℕ) → less cmp e a ≡ true
      → NoneBelow cmp a (entries_at nodes ks)
      → any_same e (entries_at nodes ks) ≡ false
  none_same_right o nodes e a [] l n = refl
  none_same_right o nodes e a (k ∷ ks) l n =
      let l' = o.le_trans e a (entry (nodes k)) l n.0 in
      rw (below_not_same (sign cmp e (entry (nodes k))) l') (none_same_right o nodes e a ks l n.1)

  none_same_left :
      IsOrder cmp
      → (nodes : Nodes) (e : Entry) (i : ℕ) (js ks : List ℕ) → sign cmp e (entry (nodes i)) ≡ above
      → IsSorted cmp (entries_at nodes (js ++ (i ∷ ks)))
      → any_same e (entries_at nodes js) ≡ false
  none_same_left o nodes e i [] ks a s = refl
  none_same_left o nodes e i (j ∷ js) ks a s =
      rw
        (o.gt_trans e (entry (nodes i)) (entry (nodes j)) a
          (none_at nodes (entry (nodes j)) i js ks s.0))
        (none_same_left o nodes e i js ks a s.1)

  -- What the search returns, below a node: a node that compares the same, if there is one.
  pub record IsSearched (nodes : Nodes) (key token : ℕ) (js : List ℕ) (r : ℕ × Bool) : Type 0 where
    pub found : r.1 ≡ any_same (key, token) (entries_at nodes js)
    pub inside : r.1 ≡ true → 0 < occurs r.0 js
    pub agrees : r.1 ≡ true → is_same (compare_at cmp nodes key token r.0) ≡ true

  or_left : (a b : Bool) → b ≡ false → (a || b) ≡ a
  or_left true b h = refl
  or_left false b h = h

  or_right : (a b : Bool) → a ≡ false → (a || b) ≡ b
  or_right a b h = rw h

  -- The search goes on in the subtree where the entry may be.
  go_left :
      (nodes : Nodes) (key token i : ℕ) (js ks : List ℕ) (r : ℕ × Bool)
      → is_same (sign cmp (key, token) (entry (nodes i))) ≡ false
      → any_same (key, token) (entries_at nodes ks) ≡ false
      → IsSearched nodes key token js r
      → IsSearched nodes key token (js ++ (i ∷ ks)) r
  go_left nodes key token i js ks r e none_right o = record {
    found =
        o.found
        ∙ sym (
            any_same-append nodes (key, token) js (i ∷ ks)
            ∙ or_left (any_same (key, token) (entries_at nodes js)) _ (rw e none_right));
    inside = λ h. omega (arith, o.inside h, occurs-append r.0 js (i ∷ ks));
    agrees = o.agrees;
  }

  go_right :
      (nodes : Nodes) (key token i : ℕ) (js ks : List ℕ) (r : ℕ × Bool)
      → is_same (sign cmp (key, token) (entry (nodes i))) ≡ false
      → any_same (key, token) (entries_at nodes js) ≡ false
      → IsSearched nodes key token ks r
      → IsSearched nodes key token (js ++ (i ∷ ks)) r
  unfolding occurs
  go_right nodes key token i js ks r e none_left o = record {
    found =
        o.found
        ∙ sym (
            any_same-append nodes (key, token) js (i ∷ ks)
            ∙ or_right (any_same (key, token) (entries_at nodes js)) _ none_left
            ∙ rw e);
    inside = λ h. omega (arith, o.inside h, occurs-append r.0 js (i ∷ ks));
    agrees = o.agrees;
  }

  found_here :
      (nodes : Nodes) (key token i : ℕ) (js ks : List ℕ)
      → is_same (sign cmp (key, token) (entry (nodes i))) ≡ true
      → IsSearched nodes key token (js ++ (i ∷ ks)) (i, true)
  unfolding occurs
  found_here nodes key token i js ks e = record {
    found = sym (
        any_same-append nodes (key, token) js (i ∷ ks)
        ∙ rw e (or_true (any_same (key, token) (entries_at nodes js))));
    inside = λ h. omega (arith, one_if_self i, occurs-append i js (i ∷ ks));
    agrees = λ _. e;
  }

  search_tree :
      (o : IsOrder cmp) (fuel : ℕ) (nodes : Nodes) (key token p : ℕ) (t : Tree)
      → IsTree nodes p t
      → IsSorted cmp (entries_at nodes (order t))
      → length (order t) < fuel
      → IsSearched nodes key token (order t) (search_loop cmp fuel nodes key token (top t))
  unfolding search_loop
  search_tree o zero nodes key token p t h s le = absurd (omega arith)
  search_tree o (suc fuel) nodes key token p leaf h s le = record {
    found = refl;
    inside = λ e. cc;
    agrees = λ e. cc;
  }
  search_tree o (suc fuel) nodes key token p (node c l i r) h s le =
      let size = length-append (order l) (i ∷ order r) in
      elim (Sign-cases (compare_at cmp nodes key token i)) [
        | inl e ↦
            let right_part = IsSorted-right nodes (order l) (i ∷ order r) s in
            rw (e, positive_test i h.0, h.1.near)
              (go_left nodes key token i (order l) (order r)
                (search_loop cmp fuel nodes key token (top l)) (ap is_same e)
                (none_same_right o nodes (key, token) (entry (nodes i)) (order r) (ap is_below e)
                  right_part.0)
                (search_tree o fuel nodes key token i l h.2
                  (IsSorted-left nodes (order l) (i ∷ order r) s) (omega (arith, size))))
        | inr (inl e) ↦
            rw (e, positive_test i h.0)
              (found_here nodes key token i (order l) (order r) (ap is_same e))
        | inr (inr e) ↦
            let right_part = IsSorted-right nodes (order l) (i ∷ order r) s in
            rw (e, positive_test i h.0, h.1.far)
              (go_right nodes key token i (order l) (order r)
                (search_loop cmp fuel nodes key token (top r)) (ap is_same e)
                (none_same_left o nodes (key, token) i (order l) (order r) e s)
                (search_tree o fuel nodes key token i r h.3 right_part.1 (omega (arith, size))))
      ]

pub search_loop_lem :
    (cmp : Compare) (t : Rbtree) (key token : ℕ) (xs : List ℕ)
    → IsOrder cmp
    → IsValid t xs
    → IsSorted cmp (entries_at t.nodes xs)
    → 0 < t.num_nodes
    → IsSearched cmp t.nodes key token xs
        (search_loop cmp t.next_free t.nodes key token (root_of t.nodes))
search_loop_lem cmp t key token xs o v s pos =
    let held = v.held pos in
    let size = length_places t.next_free xs v.counted in
    rw (← held.places, held.root)
      (search_tree cmp o t.next_free t.nodes key token 0 held.tree held.links (rw held.places s)
        (omega (arith, size, v.positive, ap (length {A = ℕ}) held.places)))

-- The outcome of rbtree_search.
pub record Finds (cmp : Compare) (t : Rbtree) (xs : List ℕ) (key : ℕ) (place : Option ℕ)
    (r : Option (Bool × Option ℕ)) : Type 0 where
  pub found : Bool
  pub at : ℕ
  pub result : r ≡ some (found, if found then stored place (t.nodes at).value else place)
  pub exactly : found ≡ any_same cmp (key, token_of place) (entries_at t.nodes xs)
  pub inside : found ≡ true → 0 < occurs at xs
  pub agrees :
      found ≡ true → is_same (cmp key (t.nodes at).key (token_of place) (t.nodes at).value) ≡ true

-- With an order for its comparator, rbtree_search in a valid and sorted tree that has an array of
-- nodes returns true exactly where some entry compares the same as the key, with what `*data` held.
-- Then `*data`, where there is a place for it, becomes the data of a node of the tree that compares
-- the same, and else it is left.
pub rbtree_search_lem :
    (cmp : Compare) (t : Rbtree) (key : ℕ) (place : Option ℕ) (xs : List ℕ)
    → IsOrder cmp
    → IsValid t xs
    → IsSorted cmp (entries_at t.nodes xs)
    → 0 < t.num_nodes
    → Finds cmp t xs key place (rbtree_search cmp t key place)
unfolding rbtree_search
rbtree_search_lem cmp t key place xs o v s pos =
    let r = search_loop cmp t.next_free t.nodes key (token_of place) (root_of t.nodes) in
    let searched = search_loop_lem cmp t key (token_of place) xs o v s pos in
    record {
      found = r.1;
      at = r.0;
      result = rw (positive_test t.num_nodes pos);
      exactly = searched.found;
      inside = searched.inside;
      agrees = searched.agrees;
    }
