-- ===== src/Rbtree/Read/Walk.antt =====
-- The walk in order: node_first and node_successor visit each node of the tree once, in order.
use nifty.Base.{
  ℕ, zero, suc, ◌+◌, ◌≤◌, ◌<◌, ◌≡◌, ◌≢◌, ◌∙◌, refl, sym, ap, ap₂, Bool, true, false, List, [], ◌∷◌,
  ◌++◌, ◌==◌, if◌then◌else◌, arith, length, length-append, Bool-cases, inl, inr,
}
use nifty.Rbtree.{Rbtree, Nodes, left, right, root_of}
use nifty.Rbtree.Read.{
  leftmost, node_first, climb, node_successor, apply_loop, rbtree_apply, rbtree_count,
}
use nifty.Rbtree.Shape.{
  Tree, leaf, node, top, order, Rim, none, rim, above, height, one_if, one_if_self, in_tree, in_rim,
  IsTree, IsRim, ne_top,
}
use nifty.Rbtree.Place.{rim_size, height-le-rim_size, positive_test}
use nifty.Rbtree.Fixup.{places_count}
use nifty.Rbtree.Fixup.Loop.{IsRedBlack}
use nifty.Rbtree.Valid.{IsValid, length_places, counted-AreApart}
use nifty.Rbtree.Insert.Sorted.{Entry, entries_at}
use nifty.Rbtree.Insert.Valid.{no_places}

-- The first node of a subtree, or the node that comes after it where it is empty.
abbrev pub start : Tree → ℕ → ℕ
start leaf after = after
start (node c l i r) after = start l i

-- The node that comes after a subtree.
abbrev pub next : Rim → ℕ
next none = 0
next (rim left c i t z) = i
next (rim right c i t z) = next z

leftmost_lem :
    (fuel : ℕ) (nodes : Nodes) (p after : ℕ) (t : Tree)
    → IsTree nodes p t
    → 0 < top t
    → length (order t) ≤ fuel
    → leftmost fuel nodes (top t) ≡ start t after
unfolding leftmost
leftmost_lem fuel nodes p after leaf h pos le = absurd (omega arith)
leftmost_lem zero nodes p after (node c l i r) h pos le =
    absurd (omega (arith, length-append (order l) (i ∷ order r)))
leftmost_lem (suc fuel) nodes p after (node c leaf i r) h pos le = rw h.1.near
leftmost_lem (suc fuel) nodes p after (node c (node d l j s) i r) h pos le =
    let size = length-append (order (node d l j s)) (i ∷ order r) in
    rw (h.1.near, positive_test j h.2.0)
      (leftmost_lem fuel nodes i i (node d l j s) h.2 h.2.0 (omega (arith, size)))

climb_lem :
    (fuel : ℕ) (nodes : Nodes) (h : ℕ) (z : Rim)
    → IsRim nodes h z
    → (nodes h).parent ≡ above z
    → 0 < h
    → ((j : ℕ) → one_if j h + in_rim j z ≤ 1)
    → height z ≤ fuel
    → climb fuel nodes h ≡ next z
unfolding climb
climb_lem zero nodes h none r p pos d le = p
climb_lem zero nodes h (rim w c i t z) r p pos d le = absurd (omega arith)
climb_lem (suc fuel) nodes h none r p pos d le = rw p
climb_lem (suc fuel) nodes h (rim left c i t z) r p pos d le =
    let differ : h ≢ top t = ne_top h t pos (omega (arith, d h, one_if_self h)) in
    let no_test : (h == top t) ≡ false = ground arith in
    rw (p, r.1.far, positive_test i r.0, no_test)
climb_lem (suc fuel) nodes h (rim right c i t z) r p pos d le =
    let same : (h == h) ≡ true = ground arith in
    rw (p, r.1.near, positive_test i r.0, same)
      (climb_lem fuel nodes i z r.3 r.1.parent r.0 (λ j. omega (arith, d j)) (omega arith))

module _ (t : Rbtree) where
  pub node_successor_lem :
      (i : ℕ) (c : Bool) (l r : Tree) (z : Rim)
      → IsTree t.nodes (above z) (node c l i r)
      → IsRim t.nodes i z
      → ((j : ℕ) → in_tree j (node c l i r) + in_rim j z ≤ 1)
      → length (order r) + rim_size z ≤ t.next_free
      → node_successor t i ≡ start r (next z)
  unfolding node_successor
  node_successor_lem i c l leaf z h r d le = rw h.1.far (
      climb_lem t.next_free t.nodes i z r h.1.parent h.0 (λ j. omega (arith, d j))
        (omega (arith, height-le-rim_size z)))
  node_successor_lem i c l (node d s k u) z h q d' le =
      rw (h.1.far, positive_test k h.3.0)
        (leftmost_lem t.next_free t.nodes i (next z) (node d s k u) h.3 h.3.0 (omega arith))

zero_plus : (n : ℕ) → 0 + n ≡ n
zero_plus n = omega arith

module _ {S : Type 0} (f : S → ℕ → ℕ → S) where
  -- The calls on a list of entries, one after the other.
  abbrev pub fold_entries : S → List Entry → S
  fold_entries s [] = s
  fold_entries s (e ∷ es) = fold_entries (f s e.0 e.1) es

  fold_entries-append :
      (nodes : Nodes) (s : S) (js ks : List ℕ)
      → fold_entries s (entries_at nodes (js ++ ks))
        ≡ fold_entries (fold_entries s (entries_at nodes js)) (entries_at nodes ks)
  fold_entries-append nodes s [] ks = refl
  fold_entries-append nodes s (j ∷ js) ks =
      fold_entries-append nodes (f s (nodes j).key (nodes j).value) js ks

  apply_step :
      (t : Rbtree) (k i num : ℕ) (s : S)
      → 0 < i
      → apply_loop (suc k) t f i (num, s)
        ≡ apply_loop k t f (node_successor t i) (num + 1, f s (t.nodes i).key (t.nodes i).value)
  unfolding apply_loop
  apply_step t k i num s pos = rw (positive_test i pos)

  -- The loop walks through a subtree, and goes on with the node that comes after it.
  apply_tree :
      (t : Rbtree) (k : ℕ) (u : Tree) (z : Rim) (num : ℕ) (s : S)
      → IsTree t.nodes (above z) u
      → IsRim t.nodes (top u) z
      → ((j : ℕ) → in_tree j u + in_rim j z ≤ 1)
      → length (order u) + rim_size z ≤ t.next_free
      → apply_loop (length (order u) + k) t f (start u (next z)) (num, s)
        ≡ apply_loop k t f
            (next z)
            (num + length (order u), fold_entries s (entries_at t.nodes (order u)))
  apply_tree t k leaf z num s h r d le =
      let fuel : length (order leaf) + k ≡ k = omega arith in
      let count : num + length (order leaf) ≡ num = omega arith in rw (fuel, count)
  apply_tree t k (node c l i u) z num s h r d le =
      let size = length-append (order l) (i ∷ order u) in
      let s₁ = fold_entries s (entries_at t.nodes (order l)) in
      let s₂ = f s₁ (t.nodes i).key (t.nodes i).value in
      let fuel : length (order l ++ (i ∷ order u)) + k
          ≡ length (order l) + suc (length (order u) + k) =
        omega (arith, size) in
      let left_part =
        apply_tree t (suc (length (order u) + k)) l (rim left c i u z) num s h.2 (h.0, h.1, h.3, r)
          (λ j. omega (arith, d j)) (omega (arith, size)) in
      let succ = node_successor_lem t i c l u z h r d (omega (arith, size)) in
      let right_part =
        apply_tree t k u (rim right c i l z) (num + length (order l) + 1) s₂ h.3
          (
            h.0,
            record { parent = h.1.parent; red = h.1.red; near = h.1.far; far = h.1.near },
            h.2,
            r,
          )
          (λ j. omega (arith, d j)) (omega (arith, size)) in
      let calls = fold_entries-append t.nodes s (order l) (i ∷ order u) in
      let sum : num + length (order l) + 1 + length (order u)
          ≡ num + length (order l ++ (i ∷ order u)) =
        omega (arith, size) in
      rw (
        fuel,
        left_part,
        apply_step t (length (order u) + k) i (num + length (order l)) s₁ h.0,
        succ,
        right_part,
        sum,
        calls,
      )

module _ {S : Type 0} (f : S → ℕ → ℕ → S) (t : Rbtree) (s : S) where
  apply_end : (k num : ℕ) → apply_loop k t f 0 (num, s) ≡ (num, s)
  unfolding apply_loop
  apply_end zero num = refl
  apply_end (suc k) num = refl

first_of_leaf :
    (t : Rbtree) (u : Tree)
    → root_of t.nodes ≡ top u
    → IsTree t.nodes 0 u
    → length (order u) ≤ t.next_free
    → (if root_of t.nodes == 0 then 0 else leftmost t.next_free t.nodes (root_of t.nodes))
      ≡ start u 0
first_of_leaf t leaf r h le = rw r
first_of_leaf t (node c l i u) r h le =
    rw (r, positive_test i h.0) (leftmost_lem t.next_free t.nodes 0 0 (node c l i u) h h.0 le)

apply_whole :
    {S : Type 0} (f : S → ℕ → ℕ → S) (t : Rbtree) (s : S) (xs : List ℕ)
    → IsValid t xs
    → IsRedBlack xs t.nodes
    → (t.num_nodes == 0) ≡ false
    → rbtree_apply t f s ≡ (length xs, fold_entries f s (entries_at t.nodes xs))
unfolding rbtree_apply node_first
apply_whole f t s xs v o e =
    let size = length_places t.next_free xs v.counted in
    let same : length (order o.tree) ≡ length xs = ap (length {A = ℕ}) o.places in
    let first = first_of_leaf t o.tree o.root o.links (omega (arith, size, same)) in
    let fuel : t.next_free ≡ length (order o.tree) + 1 = omega (arith, size, same, v.positive) in
    let apart = counted-AreApart t.next_free xs v.counted in
    let once : (j : ℕ) → in_tree j o.tree + in_rim j none ≤ 1 =
      λ j. omega (arith, places_count xs none o.tree j o.places, apart.once j) in
    let walked = apply_tree f t 1 o.tree none 0 s o.links o.root once (omega (arith, size, same)) in
    rw e (
      ap₂ (λ (n i : ℕ). apply_loop n t f i (0, s)) fuel first
      ∙ walked
      ∙ apply_end f t (fold_entries f s (entries_at t.nodes (order o.tree))) 1
          (0 + length (order o.tree))
      ∙ ap (λ (js : List ℕ). (0 + length js, fold_entries f s (entries_at t.nodes js))) o.places
      ∙ ap (λ (n : ℕ). (n, fold_entries f s (entries_at t.nodes xs))) (zero_plus (length xs)))

-- In a valid tree rbtree_count is the number of entries, and rbtree_apply comes to an end: it calls
-- the function on each of the entries, once and in order, and returns their number.
pub rbtree_apply_lem :
    {S : Type 0} (f : S → ℕ → ℕ → S) (t : Rbtree) (s : S) (xs : List ℕ)
    → IsValid t xs
    → (rbtree_count t ≡ length xs)
      × (rbtree_apply t f s ≡ (length xs, fold_entries f s (entries_at t.nodes xs)))
unfolding rbtree_apply node_first rbtree_count
rbtree_apply_lem f t s xs v = (
  sym (length_places t.next_free xs v.counted),
  elim (Bool-cases (t.num_nodes == 0)) [
    | inr e ↦ apply_whole f t s xs v (v.held (ground arith)) e
    | inl e ↦
        let one : t.next_free ≡ 1 = ground (arith, v.fits, v.positive) in
        let none_yet = no_places xs (omega (arith, length_places t.next_free xs v.counted)) in
        rw (e, none_yet) (apply_end f t s t.next_free 0)
  ],
)
