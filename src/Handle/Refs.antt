-- ===== src/Handle/Refs.antt =====
-- nft_handle_lookup and nft_handle_discard count the references, and the last discard ends the
-- handle.
use native.Mathlib.Nat.{mod-lt}
use nifty.Base.{
  ℕ, zero, suc, ◌+◌, ◌-◌, ◌<◌, ◌≡◌, ◌≢◌, ◌⊎◌, inl, inr, Bool-cases, Option-cases, refl, Bool, true,
  false, none, some, ◌==◌, if◌then◌else◌, arith, get_or-set, length-set, List, [], ◌∷◌, ap, ◌∙◌, ok,
  replicate, ◌++◌, ap₂,
}
use nifty.Handle.{
  HandleMap, free_slot, slot_at, set_slot, handle_hash, handle_lookup, handle_discard,
}
use nifty.Handle.Table.{is_live, IsHome, IsValid, find}

-- The slot of a handle that leads to an object.
pub record Found (m : HandleMap) (h o c : ℕ) : Type 0 where
  pub live : is_live (slot_at m (handle_hash h m.size)) ≡ true
  pub object : (slot_at m (handle_hash h m.size)).object ≡ o
  pub handle : m.handle o ≡ h
  pub count : (slot_at m (handle_hash h m.size)).refcount ≡ c

pub found : (m : HandleMap) (h o c : ℕ) → find m h ≡ some (o, c) → Found m h o c
found m h o c e = record {
  live = ground arith;
  object = ground arith;
  handle = ground arith;
  count = ground arith;
}

module _ (m : HandleMap) (h o c n : ℕ) (v : IsValid m) (f : Found m h o c) where
  -- The table after the slot's count becomes `n`, and zero frees the slot.
  abbrev counted : HandleMap
  counted =
      set_slot m (handle_hash h m.size)
        (if n == 0 then free_slot else record { refcount = n; object = o })

  slot_at-counted :
      (j : ℕ)
      → slot_at counted j ≡ (
          if handle_hash h m.size == j
          then (if n == 0 then free_slot else record { refcount = n; object = o })
          else slot_at m j)
  slot_at-counted j =
      get_or-set m.slots (handle_hash h m.size) j
        (if n == 0 then free_slot else record { refcount = n; object = o }) free_slot
        (omega (arith, v.stored, mod-lt h {m = m.size} v.large))

  counted-IsHome : (j : ℕ) → j < m.size → is_live (slot_at counted j) ≡ true → IsHome counted j
  counted-IsHome j lt live =
      let home : IsHome m j = v.homes j lt (
        ground
          (arith, slot_at-counted j, f, live, ap (slot_at m) {x = j} {y = handle_hash h m.size})) in
      let same = ap (slot_at m) {x = j} {y = handle_hash h m.size} in
      record {
        object = ground (arith, slot_at-counted j, f, live, home.object, same);
        handle = ground (arith, slot_at-counted j, f, live, home.handle, same);
        home = ground (arith, slot_at-counted j, f, live, home.home, same);
      }

  counted-IsValid : IsValid counted
  counted-IsValid = record {
    stored =
        length-set m.slots (handle_hash h m.size)
          (if n == 0 then free_slot else record { refcount = n; object = o })
        ∙ v.stored;
    large = v.large;
    homes = counted-IsHome;
  }

  find-counted :
      (k : ℕ)
      → find counted k ≡ (if k == h then (if n == 0 then none else some (o, n)) else find m k)
  find-counted k = ground (
    arith,
    slot_at-counted (handle_hash k m.size),
    f,
    ap (slot_at m) {x = handle_hash k m.size} {y = handle_hash h m.size},
    ap (λ (i : ℕ). handle_hash i m.size) {x = k} {y = h},
  )

-- The handle leads to `o` with `n` references, or nowhere where `n` is zero. The other handles
-- lead where they led.
pub record Counted (m : HandleMap) (h o n : ℕ) (r : HandleMap) : Type 0 where
  pub valid : IsValid r
  pub find :
      (k : ℕ) → find r k ≡ (if k == h then (if n == 0 then none else some (o, n)) else find m k)
  pub handle : r.handle o ≡ h

counted-Counted :
    (m : HandleMap) (h o c n : ℕ) (v : IsValid m) (f : Found m h o c)
    → Counted m h o n (counted m h o c n v f)
counted-Counted m h o c n v f = record {
  valid = counted-IsValid m h o c n v f;
  find = find-counted m h o c n v f;
  handle = f.handle;
}

nothing-handle_lookup : (m : HandleMap) (h : ℕ) → find m h ≡ none → handle_lookup m h ≡ (0, m)
unfolding handle_lookup
nothing-handle_lookup m h e = ground arith

some-handle_lookup :
    (m : HandleMap) (h o c : ℕ) (v : IsValid m) (f : Found m h o c)
    → h ≢ 0
    → handle_lookup m h ≡ (o, counted m h o c (c + 1) v f)
unfolding handle_lookup
some-handle_lookup m h o c v f some' =
    let head : (h == 0) ≡ false = ground arith in
    let live = f.live in
    let same : (h == m.handle (slot_at m (handle_hash h m.size)).object) ≡ true =
      ground (arith, f) in
    let counts : ((c + 1) == 0) ≡ false = ground arith in
    rw (head, live, same, counts, f.object, f.count) refl

pub positive : (m : HandleMap) (h o c : ℕ) → IsValid m → Found m h o c → (h ≢ 0) × (o ≢ 0) × (c ≢ 0)
positive m h o c v f =
    let home = v.homes (handle_hash h m.size) (mod-lt h v.large) f.live in
    (ground (arith, f, home.handle), ground (arith, f, home.object), ground (arith, f))

found-handle_discard :
    (m : HandleMap) (h o c : ℕ) (v : IsValid m) (f : Found m h o c)
    → c ≢ 0
    → handle_discard m o ≡ (ok, c == 1, counted m h o c (c - 1) v f)
unfolding handle_discard
found-handle_discard m h o c v f some' =
    let live = f.live in
    let same : ((slot_at m (handle_hash h m.size)).object == o) ≡ true = ground (arith, f) in
    rw (f.handle, live, same, f.object, f.count)
      (elim (Bool-cases (c == 1)) [
        | inl e ↦ let gone : ((c - 1) == 0) ≡ true = ground arith in rw (e, gone) refl
        | inr e ↦ let left : ((c - 1) == 0) ≡ false = ground arith in rw (e, left) refl
      ])

pub found-handle_lookup :
    (m : HandleMap) (h o c : ℕ)
    → IsValid m
    → find m h ≡ some (o, c)
    → ((handle_lookup m h).0 ≡ o) × Counted m h o (c + 1) (handle_lookup m h).1
found-handle_lookup m h o c v e =
    let f = found m h o c e in
    rw (some-handle_lookup m h o c v f (positive m h o c v f).0)
      (refl, counted-Counted m h o c (c + 1) v f)

-- Looking up a handle that leads nowhere, in a valid table, returns NULL and changes nothing.
-- Looking up any other returns the object that it leads to, which is not NULL, and counts one
-- reference more.
pub handle_lookup_lem :
    (m : HandleMap) (h : ℕ)
    → IsValid m
    → ((find m h ≡ none) × (handle_lookup m h ≡ (0, m)))
      ⊎ ((o : ℕ) × (c : ℕ) × (find m h ≡ some (o, c))
          × (o ≢ 0)
          × ((handle_lookup m h).0 ≡ o)
          × Counted m h o (c + 1) (handle_lookup m h).1)
handle_lookup_lem m h v = elim (Option-cases (find m h)) [
  | inl e ↦ inl (e, nothing-handle_lookup m h e)
  | inr ((o, c), e) ↦
      let l = found-handle_lookup m h o c v e in
      inr (o, c, e, (positive m h o c v (found m h o c e)).1, l.0, l.1)
]

-- Discarding an object that a handle of a valid table leads to takes a reference away. The object
-- is destroyed and the handle leads nowhere from then on if it was the last one, and only then.
pub handle_discard_lem :
    (m : HandleMap) (h o c : ℕ)
    → IsValid m
    → find m h ≡ some (o, c)
    → ((handle_discard m o).0 ≡ ok)
      × ((handle_discard m o).1 ≡ (c == 1))
      × Counted m h o (c - 1) (handle_discard m o).2
handle_discard_lem m h o c v e =
    let f = found m h o c e in
    let p = positive m h o c v f in
    rw (found-handle_discard m h o c v f p.2) (refl, refl, counted-Counted m h o c (c - 1) v f)

-- Discards of an object, one after the other: which of them destroyed it, and the table.
pub discard_times : ℕ → HandleMap → ℕ → List Bool × HandleMap
discard_times zero m o = ([], m)
discard_times (suc n) m o =
    let (code, destroyed, m') = handle_discard m o in
    let (rest, m'') = discard_times n m' o in (destroyed ∷ rest, m'')

-- Of as many discards of an object as it has references, in a valid table, the last destroys the
-- object, the others do not, and the handle leads nowhere afterwards.
pub discard_times_lem :
    (c : ℕ) (m : HandleMap) (h o : ℕ)
    → IsValid m
    → find m h ≡ some (o, suc c)
    → ((discard_times (suc c) m o).0 ≡ replicate c false ++ (true ∷ []))
      × (find (discard_times (suc c) m o).1 h ≡ none)
unfolding discard_times
discard_times_lem zero m h o v e =
    let d = handle_discard_lem m h o 1 v e in (rw d.1 refl, ground (arith, d.2.find h))
discard_times_lem (suc c) m h o v e =
    let d = handle_discard_lem m h o (suc (suc c)) v e in
    let rest =
      discard_times_lem c (handle_discard m o).2 h o d.2.valid (ground (arith, d.2.find h)) in
    (ap₂ (λ (b : Bool) (l : List Bool). b ∷ l) (ground (arith, d.1)) rest.0, rest.1)
