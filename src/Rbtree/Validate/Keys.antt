-- ===== src/Rbtree/Validate/Keys.antt =====
-- rbtree_validate: the order of the keys, as a walk through the entries.
use nifty.Base.{
  ℕ, zero, suc, ◌+◌, ◌<◌, ◌≡◌, refl, sym, ap, ◌∙◌, Bool, true, false, not, Option, none, some, List,
  [], ◌∷◌, length, leb, ◌==◌, ◌&&◌, ◌||◌, if◌then◌else◌, arith, Bool-cases, inl, inr,
}
use nifty.Rbtree.{Rbtree, Compare, Nodes}
use nifty.Rbtree.Shape.{Tree, leaf, node, top, order, IsTree}
use nifty.Rbtree.Place.{positive_test}
use nifty.Rbtree.Valid.{IsValid, length_places}
use nifty.Rbtree.Read.{apply_loop, rbtree_apply, node_first, node_successor}
use nifty.Rbtree.Read.Walk.{rbtree_apply_lem, fold_entries}
use nifty.Rbtree.Insert.Sorted.{Entry, entry, entries_at, less}
use nifty.Rbtree.Validate.{keys_loop, rbtree_validate, check_pointers_lem}

root_parent :
    (nodes : Nodes) (u : Tree)
    → IsTree nodes 0 u
    → 0 < length (order u)
    → (nodes (top u)).parent ≡ 0
root_parent nodes leaf h lt = absurd (omega (arith, lt))
root_parent nodes (node c l i r) h lt = h.1.parent

module _ (cmp : Compare) where
  -- A key that is below the one before it.
  abbrev is_out : Option Entry → Entry → Bool
  is_out none e = false
  is_out (some p) e = less cmp e p

  -- What the loop makes of an entry.
  abbrev look : Option Entry × Bool → ℕ → ℕ → Option Entry × Bool
  look (p, result) k v = (some (k, v), if is_out p (k, v) then false else result)

  abbrev before : Nodes → ℕ → Option Entry
  before nodes prev = if prev == 0 then none else some (entry (nodes prev))

  abbrev next_result : Rbtree → ℕ → ℕ → Bool → Bool
  next_result t prev i result =
      if not (prev == 0) && less cmp (entry (t.nodes i)) (entry (t.nodes prev))
      then false
      else result

  is_out-before :
      (nodes : Nodes) (prev : ℕ) (e : Entry)
      → is_out (before nodes prev) e ≡ (not (prev == 0) && less cmp e (entry (nodes prev)))
  is_out-before nodes prev e = elim (Bool-cases (prev == 0)) [
    | inl h ↦ rw h refl
    | inr h ↦ rw h refl
  ]

  -- One round of the walk, at a node.
  apply_round :
      (fuel : ℕ) (t : Rbtree) (prev i num : ℕ) (result : Bool)
      → (i == 0) ≡ false
      → apply_loop (suc fuel) t look i (num, (before t.nodes prev, result))
        ≡ apply_loop fuel t look
            (node_successor t i)
            (num + 1, (before t.nodes i, next_result t prev i result))
  unfolding apply_loop
  apply_round fuel t prev i num result e =
      let k = (t.nodes i).key in
      let v = (t.nodes i).value in
      let q : look (before t.nodes prev, result) k v ≡ (some (k, v), next_result t prev i result) =
        rw (is_out-before t.nodes prev (k, v)) refl in
      rw e (
        ap (λ (u : Option Entry × Bool). apply_loop fuel t look (node_successor t i) (num + 1, u))
          q)

  keys_loop_lem :
      (fuel : ℕ) (t : Rbtree) (prev i num : ℕ) (result : Bool)
      → (apply_loop fuel t look i (num, (before t.nodes prev, result))).0 < num + fuel
      → keys_loop cmp fuel t prev i result
        ≡ (apply_loop fuel t look i (num, (before t.nodes prev, result))).1.1
  unfolding keys_loop apply_loop
  keys_loop_lem zero t prev i num result lt = absurd (omega (arith, lt))
  keys_loop_lem (suc fuel) t prev i num result lt = elim (Bool-cases (i == 0)) [
    | inl e ↦ rw e refl
    | inr e ↦
        let run = apply_round fuel t prev i num result e in
        let step : keys_loop cmp (suc fuel) t prev i result
            ≡ keys_loop cmp fuel t i (node_successor t i) (next_result t prev i result) =
          rw e refl in
        let count = ap (λ (u : ℕ × (Option Entry × Bool)). u.0) run in
        step
        ∙ keys_loop_lem fuel t i (node_successor t i) (num + 1) (next_result t prev i result)
            (omega (arith, lt, count))
        ∙ sym (ap (λ (u : ℕ × (Option Entry × Bool)). u.1.1) run)
  ]

  -- No entry is below the one before it.
  abbrev pub in_order_from : Entry → List Entry → Bool
  in_order_from a [] = true
  in_order_from a (b ∷ bs) = not (less cmp b a) && in_order_from b bs

  abbrev pub in_order : List Entry → Bool
  in_order [] = true
  in_order (b ∷ bs) = in_order_from b bs

  fold-in_order :
      (a : Entry) (r : Bool) (bs : List Entry)
      → (fold_entries look (some a, r) bs).1 ≡ (r && in_order_from a bs)
  fold-in_order a true [] = refl
  fold-in_order a false [] = refl
  fold-in_order a r (b ∷ bs) = elim (Bool-cases (less cmp b a)) [
    | inl e ↦
        let shown : (look (some a, r) b.0 b.1).1 ≡ false = rw e refl in
        ap (λ (q : Bool). (fold_entries look (some b, q) bs).1) shown
        ∙ fold-in_order b false bs
        ∙ rw e (ground arith)
    | inr e ↦
        let shown : (look (some a, r) b.0 b.1).1 ≡ r = rw e refl in
        ap (λ (q : Bool). (fold_entries look (some b, q) bs).1) shown
        ∙ fold-in_order b r bs
        ∙ rw e refl
  ]

  fold_all : (bs : List Entry) → (fold_entries look (none, true) bs).1 ≡ in_order bs
  fold_all [] = refl
  fold_all (b ∷ bs) = fold-in_order b true bs

  -- In a valid tree with entries, sorted or not, rbtree_validate comes to an end, and returns true
  -- exactly where no entry is below the one before it.
  pub rbtree_validate_lem :
      (t : Rbtree) (xs : List ℕ)
      → IsValid t xs
      → 0 < t.num_nodes
      → 1 < t.next_free
      → rbtree_validate cmp t ≡ some (in_order (entries_at t.nodes xs))
  unfolding rbtree_validate rbtree_apply
  rbtree_validate_lem t xs v pos more =
      let o = v.held pos in
      let walked = (rbtree_apply_lem look t (none, true) xs v).1 in
      let size = length_places t.next_free xs v.counted in
      let links = check_pointers_lem t xs v pos in
      let same : length (order o.tree) ≡ length xs = ap (length {A = ℕ}) o.places in
      let parent = root_parent t.nodes o.tree o.links (omega (arith, same, size, more)) in
      let count = ap (λ (u : ℕ × (Option Entry × Bool)). u.0) walked in
      let keys =
        keys_loop_lem t.next_free t 0 (node_first t) 0 true (omega (arith, count, size, more)) in
      let start : ((t.nodes 0).red || leb t.next_free t.current) ≡ false =
        ground (arith, o.nil, v.walk) in
      let root : (t.nodes (t.nodes 0).left).parent ≡ 0 =
        ap (λ (i : ℕ). (t.nodes i).parent) o.root ∙ parent in
      rw (positive_test t.num_nodes pos, start, links, root)
        (ap (λ (b : Bool). some b)
          (keys
            ∙ ap (λ (u : ℕ × (Option Entry × Bool)). u.1.1) walked
            ∙ fold_all (entries_at t.nodes xs)))
