-- ===== src/Handle/Alloc.antt =====
-- nft_handle_alloc: a handle that is new, for the object that gets it and no other.
use native.Mathlib.Nat.{mod-lt}
use nifty.Base.{
  ℕ, zero, suc, ◌<◌, ◌≡◌, ◌≢◌, ◌⊎◌, inl, inr, Bool-cases, refl, Bool, true, false, not, none, some,
  ◌==◌, if◌then◌else◌, arith, get_or-set, length-set, ap, ◌∙◌, sym,
}
use nifty.Handle.{
  HandleMap, free_slot, slot_at, handle_hash, handle_map_enlarge, handle_after, occupy, scan,
  scan_limit, alloc_loop, handle_alloc,
}
use nifty.Handle.Table.{is_live, IsHome, IsValid, IsNew, find}
use nifty.Handle.Enlarge.{handle_map_enlarge_lem}

-- `h` is a handle that led nowhere and leads to `o`, and the other handles lead where they led.
pub record Allocated (m : HandleMap) (o h : ℕ) (r : HandleMap) : Type 0 where
  pub valid : IsValid r
  pub some' : h ≢ 0
  pub fresh : find m h ≡ none
  pub found : find r h ≡ some (o, 1)
  pub others : (k : ℕ) → k ≢ h → find r k ≡ find m k

-- All handles lead where they led.
pub record Same (m r : HandleMap) : Type 0 where
  pub valid : IsValid r
  pub find : (k : ℕ) → find r k ≡ find m k
  pub new : (o : ℕ) → IsNew m o → IsNew r o

module _ (m : HandleMap) (o h : ℕ) (v : IsValid m) (some' : o ≢ 0) (new : IsNew m o)
    (positive : h ≢ 0) (open' : ((slot_at m (handle_hash h m.size)).refcount == 0) ≡ true) where
  slot_at-occupy :
      (j : ℕ)
      → slot_at (occupy m o h) j
        ≡ (if handle_hash h m.size == j then record { refcount = 1; object = o } else slot_at m j)
  unfolding occupy
  slot_at-occupy j =
      get_or-set m.slots (handle_hash h m.size) j (record { refcount = 1; object = o }) free_slot
        (omega (arith, v.stored, mod-lt h {m = m.size} v.large))

  occupy-IsHome :
      (j : ℕ) → j < m.size → is_live (slot_at (occupy m o h) j) ≡ true → IsHome (occupy m o h) j
  unfolding occupy
  occupy-IsHome j lt live = elim (Bool-cases (handle_hash h m.size == j)) [
    | inl e ↦ record {
      object = ground (arith, slot_at-occupy j, e);
      handle = ground (arith, slot_at-occupy j, e);
      home = ground (arith, slot_at-occupy j, e);
    }
    | inr e ↦
        let home : IsHome m j = v.homes j lt (ground (arith, slot_at-occupy j, e, live)) in
        let other = new j lt (ground (arith, slot_at-occupy j, e, live)) in
        record {
          object = ground (arith, slot_at-occupy j, e, home.object);
          handle = ground (arith, slot_at-occupy j, e, home.handle, other);
          home = ground (arith, slot_at-occupy j, e, home.home, other);
        }
  ]

  find-occupy : (k : ℕ) → k ≢ h → find (occupy m o h) k ≡ find m k
  unfolding occupy
  find-occupy k other = ground (
    arith,
    slot_at-occupy (handle_hash k m.size),
    new (handle_hash k m.size) (mod-lt k v.large),
    ap (slot_at m) {x = handle_hash k m.size} {y = handle_hash h m.size},
  )

  occupy-Allocated : Allocated m o h (occupy m o h)
  unfolding occupy
  occupy-Allocated = record {
    valid = record {
      stored =
          length-set m.slots (handle_hash h m.size) (record { refcount = 1; object = o })
          ∙ v.stored;
      large = v.large;
      homes = occupy-IsHome;
    };
    some' = positive;
    fresh = ground arith;
    found = ground (arith, slot_at-occupy (handle_hash h m.size));
    others = find-occupy;
  }

-- The table with another NextHandle leads every handle where it led.
renumbered-Same : (m : HandleMap) (n : ℕ) → IsValid m → Same m (record m { next_handle = n })
renumbered-Same m n v = record {
  valid = record {
    stored = v.stored;
    large = v.large;
    homes = λ i l e.
        let home = v.homes i l e in
        record { object = home.object; handle = home.handle; home = home.home };
  };
  find = λ k. refl;
  new = λ o n. n;
}

Same-Allocated : (m r s : HandleMap) (o h : ℕ) → Same m r → Allocated r o h s → Allocated m o h s
Same-Allocated m r s o h e a = record {
  valid = a.valid;
  some' = a.some';
  fresh = sym (e.find h) ∙ a.fresh;
  found = a.found;
  others = λ k n. a.others k n ∙ e.find k;
}

Same-trans : (m r s : HandleMap) → Same m r → Same r s → Same m s
Same-trans m r s e f = record {
  valid = f.valid;
  find = λ k. f.find k ∙ e.find k;
  new = λ o n. f.new o (e.new o n);
}

handle_after-positive : (n : ℕ) → handle_after n ≢ 0
handle_after-positive n = ground arith

-- The result of an allocation: zero, and the handles as they were, or a new handle.
abbrev pub Result : HandleMap → ℕ → ℕ × HandleMap → Type 0
Result m o (h, r) = ((h ≡ 0) × Same m r) ⊎ Allocated m o h r

Same-Result : (m r : HandleMap) (o : ℕ) (t : ℕ × HandleMap) → Same m r → Result r o t → Result m o t
Same-Result m r o (h, s) e (inl (z, f)) = inl (z, Same-trans m r s e f)
Same-Result m r o (h, s) e (inr a) = inr (Same-Allocated m r s o h e a)

pub scan_lem :
    (n : ℕ) (m : HandleMap) (o : ℕ) → IsValid m → o ≢ 0 → IsNew m o → Result m o (scan n m o)
unfolding scan
scan_lem zero m o v some' new = inl (refl, record { valid = v; find = λ k. refl; new = λ o n. n })
scan_lem (suc n) m o v some' new =
    let h = handle_after m.next_handle in
    let r = record m { next_handle = h } in
    let e = renumbered-Same m h v in
    let rest = scan_lem n r o e.valid some' (e.new o new) in
    elim (Bool-cases ((slot_at m (handle_hash h m.size)).refcount == 0)) [
      | inl open' ↦
          rw open' (inr (occupy-Allocated m o h v some' new (handle_after-positive _) open'))
      | inr taken ↦ rw taken (Same-Result m r o (scan n r o) e rest)
    ]

enlarged-Same : (mem : ℕ → Bool) (m : HandleMap) → IsValid m → Same m (handle_map_enlarge mem m).1
enlarged-Same mem m v =
    let e = handle_map_enlarge_lem m v mem in record { valid = e.valid; find = e.find; new = e.new }

alloc_loop_lem :
    (n : ℕ) (mem : ℕ → Bool) (m : HandleMap) (o : ℕ)
    → IsValid m
    → o ≢ 0
    → IsNew m o
    → Result m o (alloc_loop n mem m o)
unfolding alloc_loop
alloc_loop_lem zero mem m o v some' new = scan_lem (scan_limit m) m o v some' new
alloc_loop_lem (suc n) mem m o v some' new = elim (scan_lem (scan_limit m) m o v some' new) [
  | inr a ↦
      let more : not ((scan (scan_limit m) m o).0 == 0) ≡ true = ground (arith, a.some') in
      rw more (inr a)
  | inl (z, e) ↦
      let m' = (scan (scan_limit m) m o).1 in
      let f = enlarged-Same mem m' e.valid in
      let g = Same-trans m m' (handle_map_enlarge mem m').1 e f in
      let rest = alloc_loop_lem n mem (handle_map_enlarge mem m').1 o g.valid some' (g.new o new) in
      let none' : not ((scan (scan_limit m) m o).0 == 0) ≡ false = ground (arith, z) in
      rw none' (elim (Bool-cases (handle_map_enlarge mem m').0) [
        | inl yes' ↦ rw yes' (
            Same-Result m (handle_map_enlarge mem m').1 o
              (alloc_loop n mem (handle_map_enlarge mem m').1 o) g rest)
        | inr no' ↦ rw no' (inl (refl, g))
      ])
]

-- nft_handle_alloc on a valid table, for an object that is not NULL and has no handle, either
-- returns zero, and every handle leads to the object and the count that it led to before, or it
-- returns a handle that led nowhere. That leads to the object then, with one reference, and the
-- others lead where they led. The table, which may be larger, is valid again.
pub handle_alloc_lem :
    (mem : ℕ → Bool) (m : HandleMap) (o : ℕ)
    → IsValid m
    → o ≢ 0
    → IsNew m o
    → Result m o (handle_alloc mem m o)
unfolding handle_alloc
handle_alloc_lem mem m o v some' new = alloc_loop_lem m.max mem m o v some' new
