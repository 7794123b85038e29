-- ===== src/Rbtree/Create.antt =====
-- rbtree_create and rbtree_vnew: an empty tree, and a tree that is made from a list of entries.
use nifty.Base.{
  ℕ, ◌≤◌, ◌<◌, ◌+◌, ◌^◌, suc, length, ◌==◌, ◌≡◌, ◌∙◌, inl, inr, refl, ap, Bool, true, List, [], ◌∷◌,
  ltb, if◌then◌else◌, arith, Option, none, some, Bool-cases, ℤ, pos, negsuc,
}
use nifty.Rbtree.{Rbtree, Compare, Nodes, rbtree_insert, resize_nodes, at_least_two}
use nifty.Rbtree.Shape.{occurs}
use nifty.Rbtree.Valid.{IsValid, length_places}
use nifty.Rbtree.Insert.Sorted.{Entry, entries_at, IsOrder, IsSorted, insert_entry}
use nifty.Rbtree.Insert.Room.{rbtree_insert_lem, resize_nodes_lem}

-- The fields that rbtree_create sets before it allocates nodes; `junk` is what memory holds.
abbrev pub unallocated : Nodes → ℕ → Rbtree
unallocated junk min_nodes = record {
  nodes = junk;
  min_nodes = min_nodes;
  num_nodes = 0;
  next_free = 1;
  current = 0;
}

-- rbtree_create; `core` and `mem` tell whether the allocation of the object and of its nodes
-- succeeds.
pub rbtree_create : Bool → Bool → Nodes → ℤ → Option Rbtree
rbtree_create core mem junk (negsuc n) = none
rbtree_create core mem junk (pos n) =
    if core
    then (if ltb 0 n
        then (let (done, t) = resize_nodes mem (unallocated junk n) n in
            if done then some t else none)
        else some (unallocated junk n))
    else none

-- rbtree_vnew, the loop on its arguments, which end at the first null key. A tree that is null
-- takes no entry.
pub insert_each : Compare → List Entry → Rbtree → Rbtree
insert_each cmp [] t = t
insert_each cmp (e ∷ es) t =
    let rest = insert_each cmp es (rbtree_insert cmp true t e.0 e.1).1 in
    if e.0 == 0 then t else rest

-- The entries before the first null key.
abbrev pub before_null : List Entry → List Entry
before_null [] = []
before_null (e ∷ es) = if e.0 == 0 then [] else e ∷ before_null es

pub rbtree_vnew : Compare → Bool → Bool → Nodes → ℤ → List Entry → Option Rbtree
rbtree_vnew cmp core mem junk num es = elim (rbtree_create core mem junk num) [
  | none ↦ none
  | some t ↦ some (insert_each cmp es t)
]

-- The entries, each put at its place among those before it.
abbrev pub insertion_sort : Compare → List Entry → List Entry → List Entry
insertion_sort cmp [] old = old
insertion_sort cmp (e ∷ es) old = insertion_sort cmp es (insert_entry cmp e old)

-- A tree that is valid and sorted, with these entries.
pub record Holds (cmp : Compare) (es : List Entry) (t : Rbtree) : Type 0 where
  pub places : List ℕ
  pub valid : IsValid t places
  pub sorted : IsSorted cmp (entries_at t.nodes places)
  pub entries : entries_at t.nodes places ≡ es

length-insert_entry :
    (cmp : Compare) (e : Entry) (es : List Entry) → length (insert_entry cmp e es) ≡ suc (length es)
unfolding insert_entry
length-insert_entry cmp e [] = refl
length-insert_entry cmp e (x ∷ xs) = ground (arith, length-insert_entry cmp e xs)

length-entries_at : (nodes : Nodes) (xs : List ℕ) → length (entries_at nodes xs) ≡ length xs
length-entries_at nodes [] = refl
length-entries_at nodes (x ∷ xs) = ap suc (length-entries_at nodes xs)

-- The nodes in use are the entries and the sentinel.
next_free-Holds :
    (cmp : Compare) (es : List Entry) (t : Rbtree) → Holds cmp es t → t.next_free ≡ suc (length es)
next_free-Holds cmp es t h = omega (
  arith,
  h.valid.positive,
  length_places t.next_free h.places h.valid.counted,
  length-entries_at t.nodes h.places,
  ap (length {A = Entry}) h.entries,
)

insert_each-Holds :
    (cmp : Compare) (es : List Entry) (t : Rbtree) (old : List Entry)
    → IsOrder cmp
    → length old + length es + 1 < 2 ^ 30
    → Holds cmp old t
    → Holds cmp (insertion_sort cmp (before_null es) old) (insert_each cmp es t)
unfolding insert_each
insert_each-Holds cmp [] t old o few h = h
insert_each-Holds cmp (e ∷ es) t old o few h = elim (Bool-cases (e.0 == 0)) [
  | inl n ↦ rw n h
  | inr n ↦
      let small : t.next_free < 2 ^ 30 = omega (arith, few, next_free-Holds cmp old t h) in
      rw n (elim (rbtree_insert_lem cmp true t e.0 e.1 h.places o h.valid h.sorted small) [
        | inl (done, (x, s)) ↦
            insert_each-Holds cmp es (rbtree_insert cmp true t e.0 e.1).1 (insert_entry cmp e old) o
              (omega (arith, few, length-insert_entry cmp e old))
              (record {
                places = x.places;
                valid = x.valid;
                sorted = s;
                entries = x.entries ∙ ap (insert_entry cmp e) h.entries;
              })
        | inr f ↦ cc (f.0)
      ])
]

unallocated-IsValid : (junk : Nodes) (n : ℕ) → IsValid (unallocated junk n) []
unfolding occurs
unallocated-IsValid junk n = record {
  positive = omega arith;
  fits = inr (refl, refl);
  held = λ h. absurd (omega arith);
  counted = λ j. ground arith;
  walk = omega arith;
}

rbtree_create-Holds :
    (cmp : Compare) (junk : Nodes) (n : ℕ)
    → (t : Rbtree) × (rbtree_create true true junk (pos n) ≡ some t) × Holds cmp [] t
unfolding rbtree_create
rbtree_create-Holds cmp junk n = elim (Bool-cases (ltb 0 n)) [
  | inr e ↦ rw e (
    unallocated junk n,
    refl,
    record { places = []; valid = unallocated-IsValid junk n; sorted = tt; entries = refl },
  )
  | inl e ↦
      let fits : 1 ≤ at_least_two n = ground arith in
      let (done, r) =
        resize_nodes_lem (unallocated junk n) [] n (unallocated-IsValid junk n) fits in
      rw (e, done)
        (
          (resize_nodes true (unallocated junk n) n).1,
          refl,
          record { places = []; valid = r.valid; sorted = tt; entries = refl },
        )
]

-- Where memory suffices, and the entries are less than 2 ^ 30 - 1, rbtree_vnew makes a valid tree, in
-- which the entries before the first null key are sorted: each was put, in turn, behind those of the entries before it that it is not below.
pub rbtree_vnew_lem :
    (cmp : Compare) (junk : Nodes) (num : ℕ) (es : List Entry)
    → IsOrder cmp
    → length es + 1 < 2 ^ 30
    → (t : Rbtree) × (rbtree_vnew cmp true true junk (pos num) es ≡ some t)
      × Holds cmp (insertion_sort cmp (before_null es) []) t
unfolding rbtree_vnew
rbtree_vnew_lem cmp junk num es o few =
    let (t, made, h) = rbtree_create-Holds cmp junk num in
    (
      insert_each cmp es t,
      rw (made, rbtree_vnew),
      insert_each-Holds cmp es t [] o (omega (arith, few)) h,
    )
