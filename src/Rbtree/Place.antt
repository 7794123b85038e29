-- ===== src/Rbtree/Place.antt =====
-- insert_node: the search for the node to which the new leaf is attached.
use nifty.Base.{
  ℕ, zero, suc, ◌+◌, ◌≤◌, ◌<◌, ◌≡◌, ◌∙◌, sym, ap, Bool, true, false, List, [], ◌∷◌, ◌++◌, ◌==◌,
  if◌then◌else◌, arith, Bool-cases, inl, inr, length, length-append,
}
use nifty.Rbtree.{Side, left, right, Nodes, Compare, is_below, compare_at, place_loop}
use nifty.Rbtree.Shape.{
  Tree, leaf, node, top, order, Rim, none, rim, above, height, around, occurs, one_if, IsNode,
  IsTree, IsRim,
}
use nifty.Rbtree.Colour.{IsBalanced, IsBalancedRim, is_red_above}

module _ (f : ℕ → Bool) where
  abbrev pub All : Bool → List ℕ → Type 0
  All b [] = Unit {0}
  All b (j ∷ js) = (f j ≡ b) × All b js

  -- Where the test holds, it holds from there on.
  abbrev pub IsMonotone : List ℕ → Type 0
  IsMonotone [] = Unit {0}
  IsMonotone (j ∷ js) = (f j ≡ true → All true js) × IsMonotone js

  -- `k` before the first place at which the test holds.
  unfoldable pub insert_place : ℕ → List ℕ → List ℕ
  insert_place k [] = k ∷ []
  insert_place k (j ∷ js) = if f j then k ∷ (j ∷ js) else j ∷ insert_place k js

  pub occurs-insert_place :
      (i k : ℕ) (js : List ℕ) → occurs i (insert_place k js) ≡ occurs i js + one_if i k
  unfolding insert_place occurs
  occurs-insert_place i k [] = omega arith
  occurs-insert_place i k (j ∷ js) = elim (Bool-cases (f j)) [
    | inl e ↦ rw e (omega arith)
    | inr e ↦ rw e (omega (arith, occurs-insert_place i k js))
  ]

  All-left : (js ks : List ℕ) → All true (js ++ ks) → All true js
  All-left [] ks a = tt
  All-left (j ∷ js) ks a = (a.0, All-left js ks a.1)

  IsMonotone-left : (js ks : List ℕ) → IsMonotone (js ++ ks) → IsMonotone js
  IsMonotone-left [] ks m = tt
  IsMonotone-left (j ∷ js) ks m = (λ e. All-left js ks (m.0 e), IsMonotone-left js ks m.1)

  IsMonotone-right : (js ks : List ℕ) → IsMonotone (js ++ ks) → IsMonotone ks
  IsMonotone-right [] ks m = m
  IsMonotone-right (j ∷ js) ks m = IsMonotone-right js ks m.1

  All-at : (i : ℕ) (js ks : List ℕ) → All true (js ++ (i ∷ ks)) → f i ≡ true
  All-at i [] ks a = a.0
  All-at i (j ∷ js) ks a = All-at i js ks a.1

  -- The new place is to the left of one at which the test holds.
  insert_place-left :
      (i k : ℕ) (js ks : List ℕ)
      → f i ≡ true
      → insert_place k (js ++ (i ∷ ks)) ≡ insert_place k js ++ (i ∷ ks)
  unfolding insert_place
  insert_place-left i k [] ks e = rw e
  insert_place-left i k (j ∷ js) ks e = elim (Bool-cases (f j)) [
    | inl h ↦ rw h
    | inr h ↦ rw h (ap (λ xs. j ∷ xs) (insert_place-left i k js ks e))
  ]

  insert_place-right :
      (i k : ℕ) (js ks : List ℕ)
      → f i ≡ false
      → IsMonotone (js ++ (i ∷ ks))
      → insert_place k (js ++ (i ∷ ks)) ≡ js ++ (i ∷ insert_place k ks)
  unfolding insert_place
  insert_place-right i k [] ks e m = rw e
  insert_place-right i k (j ∷ js) ks e m = elim (Bool-cases (f j)) [
    | inl h ↦ cc (e, All-at i js ks (m.0 h))
    | inr h ↦ rw h (ap (λ xs. j ∷ xs) (insert_place-right i k js ks e m.1))
  ]

abbrev pub rim_size : Rim → ℕ
rim_size none = 0
rim_size (rim w c i t z) = length (order t) + 1 + rim_size z

pub length-around : (z : Rim) (js : List ℕ) → length (around z js) ≡ length js + rim_size z
length-around none js = omega arith
length-around (rim left c i t z) js =
    omega (arith, length-around z (js ++ (i ∷ order t)), length-append js (i ∷ order t))
length-around (rim right c i t z) js =
    omega (arith, length-around z (order t ++ (i ∷ js)), length-append (order t) (i ∷ js))

pub height-le-rim_size : (z : Rim) → height z ≤ rim_size z
height-le-rim_size none = omega arith
height-le-rim_size (rim w c i t z) = omega (arith, height-le-rim_size z)

pub positive_test : (j : ℕ) → 0 < j → (j == 0) ≡ false
positive_test j h = ground arith

-- The two ways down from a node.
record IsSplit (c : Bool) (i : ℕ) (l r : Tree) (z : Rim) : Type 0 where
  count : ℕ
  near : IsBalanced c count l
  far : IsBalanced c count r
  below_left : IsBalancedRim count (rim left c i r z)
  below_right : IsBalancedRim count (rim right c i l z)

split :
    (n : ℕ) (c : Bool) (i : ℕ) (l r : Tree) (z : Rim)
    → IsBalanced (is_red_above z) n (node c l i r)
    → IsBalancedRim n z
    → IsSplit c i l r z
split n true i l r z b br = record {
  count = n;
  near = b.1;
  far = b.2;
  below_left = (b.2, b.0, br);
  below_right = (b.1, b.0, br);
}
split zero false i l r z b br = absurd b
split (suc n) false i l r z b br = record {
  count = n;
  near = b.0;
  far = b.1;
  below_left = (b.1, br);
  below_right = (b.0, br);
}

module _ (cmp : Compare) (nodes : Nodes) (key value : ℕ) where
  -- Whether the new entry is below that of a node.
  abbrev pub goes_before : ℕ → Bool
  goes_before i = is_below (compare_at cmp nodes key value i)

  -- The search ends at a node with a free side, where the new leaf has its place in the order.
  pub record IsPlaced (k : ℕ) (js : List ℕ) (r : ℕ × Side) : Type 0 where
    pub colour : Bool
    pub sibling : Tree
    pub rest : Rim
    pub links : IsRim nodes 0 (rim r.1 colour r.0 sibling rest)
    pub balanced : IsBalancedRim 0 (rim r.1 colour r.0 sibling rest)
    pub places : around (rim r.1 colour r.0 sibling rest) (k ∷ []) ≡ js

  -- The loop leaves off below the node, or goes on to the subtree.
  place_step :
      (fuel k : ℕ) (js : List ℕ) (w : Side) (c : Bool) (i n : ℕ) (t s : Tree) (z : Rim)
      → IsTree nodes i t
      → IsRim nodes (top t) (rim w c i s z)
      → IsBalanced c n t
      → IsBalancedRim n (rim w c i s z)
      → around (rim w c i s z) (insert_place goes_before k (order t)) ≡ js
      → (0 < top t → IsPlaced k js (place_loop cmp fuel nodes key value (top t)))
      → IsPlaced k js (if top t == 0 then (i, w) else place_loop cmp fuel nodes key value (top t))
  unfolding insert_place
  place_step fuel k js w c i n leaf s z h r b br e next = record {
    colour = c;
    sibling = s;
    rest = z;
    links = r;
    balanced = let none_black : n ≡ 0 = b in rw none_black at br;
    places = e;
  }
  place_step fuel k js w c i n (node d l j t) s z h r b br e next =
      rw (positive_test j h.0) (next h.0)

  pub place_loop_lem :
      (fuel k : ℕ) (js : List ℕ) (z : Rim) (n : ℕ) (t : Tree)
      → IsTree nodes (above z) t
      → IsRim nodes (top t) z
      → IsBalanced (is_red_above z) n t
      → IsBalancedRim n z
      → IsMonotone goes_before (order t)
      → length (order t) ≤ fuel
      → around z (insert_place goes_before k (order t)) ≡ js
      → 0 < top t
      → IsPlaced k js (place_loop cmp fuel nodes key value (top t))
  unfolding place_loop
  place_loop_lem fuel k js z n leaf h r b br m le e pos = absurd (omega arith)
  place_loop_lem zero k js z n (node c l i s) h r b br m le e pos =
      absurd (omega (arith, length-append (order l) (i ∷ order s)))
  place_loop_lem (suc fuel) k js z n (node c l i s) h r b br m le e pos =
      let o = split n c i l s z b br in
      let size = length-append (order l) (i ∷ order s) in
      elim (Bool-cases (goes_before i)) [
        | inl f ↦
            let e' : around (rim left c i s z) (insert_place goes_before k (order l)) ≡ js =
              ap (around z) (sym (insert_place-left goes_before i k (order l) (order s) f)) ∙ e in
            let r' : IsRim nodes (top l) (rim left c i s z) = (h.0, h.1, h.3, r) in
            let m' = IsMonotone-left goes_before (order l) (i ∷ order s) m in
            rw (f, h.1.near)
              (place_step fuel k js left c i o.count l s z h.2 r' o.near o.below_left e' (
                place_loop_lem fuel k js (rim left c i s z) o.count l h.2 r' o.near o.below_left m'
                  (omega arith) e'))
        | inr f ↦
            let e' : around (rim right c i l z) (insert_place goes_before k (order s)) ≡ js =
              ap (around z) (sym (insert_place-right goes_before i k (order l) (order s) f m))
              ∙ e in
            let flipped : IsNode (nodes i) (above z) c right (top s) (top l) = record {
              parent = h.1.parent;
              red = h.1.red;
              near = h.1.far;
              far = h.1.near;
            } in
            let r' : IsRim nodes (top s) (rim right c i l z) = (h.0, flipped, h.2, r) in
            let m' = (IsMonotone-right goes_before (order l) (i ∷ order s) m).1 in
            rw (f, h.1.far)
              (place_step fuel k js right c i o.count s l z h.3 r' o.far o.below_right e' (
                place_loop_lem fuel k js (rim right c i l z) o.count s h.3 r' o.far o.below_right m'
                  (omega arith) e'))
      ]
