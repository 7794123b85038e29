-- ===== src/Rbtree/Insert/Sorted.antt =====
-- The entries of a tree as a sorted list, and insertion into such a list.
use nifty.Base.{
  ℕ, ◌<◌, ◌≡◌, ◌≢◌, refl, sym, ap, ap₂, Bool, true, false, List, [], ◌∷◌, if◌then◌else◌, arith,
  Bool-cases, inl, inr,
}
use nifty.Vector.{Sign, above, is_same}
use nifty.Rbtree.{Compare, Nodes, Node, is_below}
use nifty.Rbtree.Shape.{occurs, one_if_self, one_if_eq}
use nifty.Rbtree.Rotate.{IsSame}
use nifty.Rbtree.Place.{All, IsMonotone, insert_place, goes_before}

-- A key with its data.
abbrev pub Entry : Type 0
Entry = ℕ × ℕ

abbrev pub entry : Node → Entry
entry n = (n.key, n.value)

-- The entries of the nodes at some places.
abbrev pub entries_at : Nodes → List ℕ → List Entry
entries_at nodes [] = []
entries_at nodes (j ∷ js) = entry (nodes j) ∷ entries_at nodes js

-- Nodes that hold the same at the places have the same entries.
pub entries_at_same :
    (nodes nodes' : Nodes) (js : List ℕ)
    → ((j : ℕ) → 0 < occurs j js → IsSame (nodes j) (nodes' j))
    → entries_at nodes' js ≡ entries_at nodes js
unfolding occurs
entries_at_same nodes nodes' [] f = refl
entries_at_same nodes nodes' (j ∷ js) f =
    let s = f j (omega (arith, one_if_self j)) in
    ap₂ (λ (a : Entry) (bs : List Entry). a ∷ bs) (ap₂ (λ (a b : ℕ). (a, b)) s.0 s.1)
      (entries_at_same nodes nodes' js (λ i h. f i (omega arith)))

module _ (cmp : Compare) where
  abbrev pub sign : Entry → Entry → Sign
  sign a b = cmp a.0 b.0 a.1 b.1

  -- Whether the first entry is below the second.
  abbrev pub less : Entry → Entry → Bool
  less a b = is_below (cmp a.0 b.0 a.1 b.1)

  -- What is asked of a comparator.
  pub record IsOrder : Type 0 where
    pub le_trans : (a b c : Entry) → less a b ≡ true → less c b ≡ false → less a c ≡ true
    pub gt_trans :
        (a b c : Entry) → sign a b ≡ above → less b c ≡ false → is_same (sign a c) ≡ false
    pub lt_asym : (a b : Entry) → less a b ≡ true → less b a ≡ false

  abbrev pub NoneBelow : Entry → List Entry → Type 0
  NoneBelow a [] = Unit {0}
  NoneBelow a (b ∷ bs) = (less b a ≡ false) × NoneBelow a bs

  abbrev pub IsSorted : List Entry → Type 0
  IsSorted [] = Unit {0}
  IsSorted (a ∷ bs) = NoneBelow a bs × IsSorted bs

  -- A new entry behind those that it is not below.
  unfoldable pub insert_entry : Entry → List Entry → List Entry
  insert_entry e [] = e ∷ []
  insert_entry e (a ∷ bs) = if less e a then e ∷ (a ∷ bs) else a ∷ insert_entry e bs

  NoneBelow-trans :
      IsOrder → (e a : Entry) (bs : List Entry) → less e a ≡ true → NoneBelow a bs → NoneBelow e bs
  NoneBelow-trans o e a [] h n = tt
  NoneBelow-trans o e a (b ∷ bs) h n =
      (o.lt_asym e b (o.le_trans e a b h n.0), NoneBelow-trans o e a bs h n.1)

  NoneBelow-insert_entry :
      (a e : Entry) (bs : List Entry)
      → less e a ≡ false
      → NoneBelow a bs
      → NoneBelow a (insert_entry e bs)
  unfolding insert_entry
  NoneBelow-insert_entry a e [] h n = (h, tt)
  NoneBelow-insert_entry a e (b ∷ bs) h n = elim (Bool-cases (less e b)) [
    | inl l ↦ rw l (h, n)
    | inr l ↦ rw l (n.0, NoneBelow-insert_entry a e bs h n.1)
  ]

  pub insert_entry-IsSorted :
      IsOrder → (e : Entry) (bs : List Entry) → IsSorted bs → IsSorted (insert_entry e bs)
  unfolding insert_entry
  insert_entry-IsSorted o e [] s = (tt, tt)
  insert_entry-IsSorted o e (a ∷ bs) s = elim (Bool-cases (less e a)) [
    | inl l ↦ rw l ((o.lt_asym e a l, NoneBelow-trans o e a bs l s.0), s)
    | inr l ↦ rw l (NoneBelow-insert_entry a e bs l s.0, insert_entry-IsSorted o e bs s.1)
  ]

  All-above :
      IsOrder
      → (nodes : Nodes) (key value : ℕ) (a : Entry) (js : List ℕ) → less (key, value) a ≡ true
      → NoneBelow a (entries_at nodes js)
      → All (goes_before cmp nodes key value) true js
  All-above o nodes key value a [] h n = tt
  All-above o nodes key value a (j ∷ js) h n =
      (o.le_trans (key, value) a (entry (nodes j)) h n.0, All-above o nodes key value a js h n.1)

  -- In a sorted tree all behind an entry that is above the new one are above it.
  pub IsSorted-IsMonotone :
      IsOrder
      → (nodes : Nodes) (key value : ℕ) (js : List ℕ) → IsSorted (entries_at nodes js)
      → IsMonotone (goes_before cmp nodes key value) js
  IsSorted-IsMonotone o nodes key value [] s = tt
  IsSorted-IsMonotone o nodes key value (j ∷ js) s = (
    λ h. All-above o nodes key value (entry (nodes j)) js h s.0,
    IsSorted-IsMonotone o nodes key value js s.1,
  )

  pub entries_at-insert_place :
      (nodes nodes' : Nodes) (key value k : ℕ) (js : List ℕ)
      → entry (nodes' k) ≡ (key, value)
      → ((j : ℕ) → j ≢ k → IsSame (nodes j) (nodes' j))
      → occurs k js ≡ 0
      → entries_at nodes' (insert_place (goes_before cmp nodes key value) k js)
        ≡ insert_entry (key, value) (entries_at nodes js)
  unfolding insert_entry insert_place occurs
  entries_at-insert_place nodes nodes' key value k [] new others fresh = ap (λ a. a ∷ []) new
  entries_at-insert_place nodes nodes' key value k (j ∷ js) new others fresh =
      let jk : j ≢ k = λ e. omega (arith, fresh, one_if_eq k j (sym e)) in
      let same : entry (nodes' j) ≡ entry (nodes j) =
        ap₂ (λ (a b : ℕ). (a, b)) (others j jk).0 (others j jk).1 in
      let kept : entries_at nodes' js ≡ entries_at nodes js =
        entries_at_same nodes nodes' js
          (λ i h. others i (λ e. omega (arith, fresh, ap (λ x. occurs x js) e))) in
      elim (Bool-cases (goes_before cmp nodes key value j)) [
        | inl h ↦ rw (h, new, same, kept)
        | inr h ↦
            rw (h, same)
              (ap (λ bs. entry (nodes j) ∷ bs)
                (entries_at-insert_place nodes nodes' key value k js new others
                  (omega (arith, fresh))))
      ]
