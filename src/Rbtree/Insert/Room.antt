-- ===== src/Rbtree/Insert/Room.antt =====
-- rbtree_insert as a whole: the array grows first where it is full.
use native.Mathlib.Nat.{mod-eq_of_lt}
use nifty.Base.{
  ℕ, ◌*◌, ◌≤◌, ◌<◌, ◌^◌, ◌%◌, ◌≡◌, ◌∙◌, ◌⊎◌, inl, inr, refl, ap, Bool, true, false, List, [], leb,
  ltb, ◌==◌, if◌then◌else◌, arith, Bool-cases,
}
use nifty.Rbtree.{
  Rbtree, Compare, Nodes, set_node, sentinel, resize_nodes, at_least_two, make_room, insert_in_room,
  rbtree_insert,
}
use nifty.Rbtree.Shape.{leaf}
use nifty.Rbtree.Valid.{IsValid, length_places}
use nifty.Rbtree.Fixup.Loop.{IsRedBlack}
use nifty.Rbtree.Insert.Sorted.{
  Entry, entries_at, IsOrder, IsSorted, insert_entry, insert_entry-IsSorted,
}
use nifty.Rbtree.Insert.Valid.{IsExtended, insert_in_room_lem, no_places}

-- The tree with another size of its array.
pub record IsResized (t : Rbtree) (xs : List ℕ) (size : ℕ) (t' : Rbtree) : Type 0 where
  pub valid : IsValid t' xs
  pub entries : entries_at t'.nodes xs ≡ entries_at t.nodes xs
  pub num_nodes : t'.num_nodes ≡ size
  pub next_free : t'.next_free ≡ t.next_free

pub resize_nodes_fails : (t : Rbtree) (n : ℕ) → (resize_nodes false t n).1 ≡ t
unfolding resize_nodes
resize_nodes_fails t n = refl

new_nodes-IsRedBlack : (nodes : Nodes) → IsRedBlack [] (set_node nodes 0 sentinel)
new_nodes-IsRedBlack nodes = record {
  tree = leaf;
  black = 0;
  links = tt;
  root = refl;
  balanced = refl;
  nil = refl;
  places = refl;
}

-- resize_nodes, to a size that all nodes in use fit in.
pub resize_nodes_lem :
    (t : Rbtree) (xs : List ℕ) (n : ℕ)
    → IsValid t xs
    → t.next_free ≤ at_least_two n
    → (resize_nodes true t n).0 ≡ true × IsResized t xs (at_least_two n) (resize_nodes true t n).1
unfolding resize_nodes
resize_nodes_lem t xs n v le = elim (Bool-cases (t.num_nodes == 0)) [
  | inl e ↦
      let one : t.next_free ≡ 1 = ground (arith, v.fits, v.positive) in
      let none_yet = no_places xs (omega (arith, length_places t.next_free xs v.counted)) in
      rw (e, none_yet)
        (
          refl,
          record {
            valid = record {
              positive = v.positive;
              fits = inl le;
              held = λ _. new_nodes-IsRedBlack t.nodes;
              counted = λ j. rw (← none_yet) (v.counted j);
              walk = v.walk;
            };
            entries = refl;
            num_nodes = refl;
            next_free = refl;
          },
        )
  | inr e ↦ rw e (
    refl,
    record {
      valid = record {
        positive = v.positive;
        fits = inl le;
        held = λ _. v.held (ground arith);
        counted = v.counted;
        walk = v.walk;
      };
      entries = refl;
      num_nodes = refl;
      next_free = refl;
    },
  )
]

-- There is room for one more node, in a tree with the same entries.
record HasRoom (t : Rbtree) (xs : List ℕ) (t' : Rbtree) : Type 0 where
  valid : IsValid t' xs
  entries : entries_at t'.nodes xs ≡ entries_at t.nodes xs
  room : t'.next_free < t'.num_nodes

at_least_two_fits : (n : ℕ) → n < 2 ^ 30 → at_least_two (2 * n) ≡ (if n == 0 then 2 else 2 * n)
at_least_two_fits n small =
    let whole : (2 * n) % 2 ^ 32 ≡ 2 * n = mod-eq_of_lt (omega arith) in rw whole (ground arith)

resized-HasRoom :
    (t t' : Rbtree) (xs : List ℕ)
    → IsValid t xs
    → t.num_nodes < 2 ^ 30
    → t.num_nodes ≤ t.next_free
    → IsResized t xs (at_least_two (2 * t.num_nodes)) t'
    → HasRoom t xs t'
resized-HasRoom t t' xs v small full r = record {
  valid = r.valid;
  entries = r.entries;
  room =
      ground
        (arith, v.fits, v.positive, r.num_nodes, r.next_free, at_least_two_fits t.num_nodes small);
}

grown :
    (mem : Bool) (t : Rbtree) (xs : List ℕ)
    → IsValid t xs
    → t.num_nodes < 2 ^ 30
    → t.num_nodes ≤ t.next_free
    → HasRoom t xs (resize_nodes mem t (2 * t.num_nodes)).1
      ⊎ ((mem ≡ false)
          × (t.num_nodes ≤ t.next_free)
          × ((resize_nodes mem t (2 * t.num_nodes)).1 ≡ t))
grown true t xs v small full =
    let fits : t.next_free ≤ at_least_two (2 * t.num_nodes) =
      ground (arith, v.fits, v.positive, at_least_two_fits t.num_nodes small) in
    let (done, r) = resize_nodes_lem t xs (2 * t.num_nodes) v fits in
    inl (resized-HasRoom t (resize_nodes true t (2 * t.num_nodes)).1 xs v small full r)
grown false t xs v small full = inr (refl, full, resize_nodes_fails t (2 * t.num_nodes))

-- `realloc` may fail only where the array is full, and nothing has changed then.
make_room_lem :
    (mem : Bool) (t : Rbtree) (xs : List ℕ)
    → IsValid t xs
    → t.next_free < 2 ^ 30
    → HasRoom t xs (make_room mem t)
      ⊎ ((mem ≡ false) × (t.num_nodes ≤ t.next_free) × (make_room mem t ≡ t))
unfolding make_room
make_room_lem mem t xs v small = elim (Bool-cases (leb t.num_nodes t.next_free)) [
  | inr e ↦ rw e (inl (record { valid = v; entries = refl; room = ground arith }))
  | inl e ↦ rw e (grown mem t xs v (ground arith) (ground arith))
]

-- The outcomes of rbtree_insert.
abbrev pub Inserts : Compare → Rbtree → List ℕ → Entry → Bool × Rbtree → Bool → Type 0
Inserts cmp t xs e r mem =
    ((r.0 ≡ true)
      × ((o : IsExtended cmp t xs e r.1) × IsSorted cmp (entries_at r.1.nodes o.places)))
    ⊎ ((mem ≡ false) × (t.num_nodes ≤ t.next_free) × (r ≡ (false, t)))

insert_in_full :
    (cmp : Compare) (t : Rbtree) (key value : ℕ)
    → t.num_nodes ≤ t.next_free
    → insert_in_room cmp t key value ≡ (false, t)
unfolding insert_in_room
insert_in_full cmp t key value full =
    let no_room : ltb t.next_free t.num_nodes ≡ false = ground arith in rw no_room

-- With an order for its comparator, rbtree_insert in a valid and sorted tree whose nodes in use, with
-- the sentinel, are less than 2 ^ 30 returns true and makes a valid (so also red-black) and sorted tree, whose entries are the old ones with the new one
-- behind all that it is not below; or the array was full, its allocation failed, and rbtree_insert
-- returns false and changes nothing.
pub rbtree_insert_lem :
    (cmp : Compare) (mem : Bool) (t : Rbtree) (key value : ℕ) (xs : List ℕ)
    → IsOrder cmp
    → IsValid t xs
    → IsSorted cmp (entries_at t.nodes xs)
    → t.next_free < 2 ^ 30
    → Inserts cmp t xs (key, value) (rbtree_insert cmp mem t key value) mem
unfolding rbtree_insert
rbtree_insert_lem cmp mem t key value xs o v s small = elim (make_room_lem mem t xs v small) [
  | inl r ↦
      let t' = make_room mem t in
      let s' : IsSorted cmp (entries_at t'.nodes xs) = rw r.entries s in
      let (done, e) = insert_in_room_lem cmp t' key value xs o r.valid s' r.room in
      let e' : IsExtended cmp t xs (key, value) (insert_in_room cmp t' key value).1 = record {
        places = e.places;
        valid = e.valid;
        entries = e.entries ∙ ap (insert_entry cmp (key, value)) r.entries;
      } in
      inl (
        done,
        (e', rw e'.entries (insert_entry-IsSorted cmp o (key, value) (entries_at t.nodes xs) s)),
      )
  | inr f ↦ inr (f.0, f.1, rw f.2 (insert_in_full cmp t key value f.1))
]
