-- ===== src/Handle/Enlarge.antt =====
-- A table of twice the size leads each handle to the object it led to before.
use native.Mathlib.Nat.{mod-lt, mod-mod_of_dvd, dvd-mul_left}
use nifty.Base.{
  ℕ, zero, suc, ◌+◌, ◌*◌, ◌%◌, ◌≤◌, ◌<◌, ◌≡◌, ◌⊎◌, inl, inr, Bool-cases, refl, Bool, true, false,
  ◌&&◌, not, ltb, ltb→lt, leb, ◌==◌, if◌then◌else◌, length, arith, get_or, set, get_or-set,
  length-set, length-replicate, replicate, List, ap, ◌∙◌,
}
use nifty.Handle.{Slot, HandleMap, free_slot, slot_at, handle_hash, copy_slots, handle_map_enlarge}
use nifty.Handle.Table.{is_live, IsHome, IsValid, IsNew, find, get_or-replicate}

mod_twice : (h s : ℕ) → h % (2 * s) % s ≡ h % s
mod_twice h s = mod-mod_of_dvd s h (dvd-mul_left s 2)

-- The slot of the larger table that the slot of the smaller one goes to.
abbrev goes : HandleMap → ℕ → Bool
goes m j = let s = slot_at m (j % m.size) in is_live s && (m.handle s.object % (2 * m.size) == j)

-- The table that handle_map_enlarge makes.
pub enlarged : HandleMap → HandleMap
unfolding copy_slots
enlarged m = record m {
  slots = copy_slots m.size 0 m (replicate (2 * m.size) free_slot);
  size = 2 * m.size;
}

pub max-enlarged : (m : HandleMap) → (enlarged m).max ≡ m.max
unfolding enlarged
max-enlarged m = refl

pub size-enlarged : (m : HandleMap) → (enlarged m).size ≡ 2 * m.size
unfolding enlarged
size-enlarged m = refl

pub next_handle-enlarged : (m : HandleMap) → (enlarged m).next_handle ≡ m.next_handle
unfolding enlarged
next_handle-enlarged m = refl

module _ (m : HandleMap) (v : IsValid m) where
  length-copy_slots :
      (n i : ℕ) (newmap : List Slot) → length (copy_slots n i m newmap) ≡ length newmap
  unfolding copy_slots
  length-copy_slots zero i newmap = refl
  length-copy_slots (suc n) i newmap =
      let s = slot_at m i in
      let h = m.handle s.object in
      let v = slot_at m (handle_hash h m.size) in
      ground (
        arith,
        length-copy_slots n (suc i) newmap,
        length-copy_slots n (suc i) (set newmap (handle_hash h (2 * m.size)) v),
        length-set newmap (handle_hash h (2 * m.size)) v,
      )

  get_or-copy_slots :
      (n i : ℕ) (newmap : List Slot) (j : ℕ)
      → i + n ≤ m.size
      → length newmap ≡ 2 * m.size
      → get_or (copy_slots n i m newmap) j free_slot ≡ (
          if leb i (j % m.size) && ltb (j % m.size) (i + n) && goes m j
          then slot_at m (j % m.size)
          else get_or newmap j free_slot)
  unfolding copy_slots
  get_or-copy_slots zero i newmap j l e = ground arith
  get_or-copy_slots (suc n) i newmap j l e =
      let s = slot_at m i in
      let h = m.handle s.object in
      let w = slot_at m (handle_hash h m.size) in
      let new = set newmap (handle_hash h (2 * m.size)) w in
      elim (Bool-cases (is_live s)) [
        | inr dead ↦ rw dead (
            ground (
              arith,
              get_or-copy_slots n (suc i) newmap j (omega arith) e,
              ap (slot_at m) {x = j % m.size} {y = i},
            ))
        | inl live ↦
            let home = v.homes i (omega arith) live in
            let some' : not (s.object == 0) ≡ true = ground (arith, home.object) in
            let long : length new ≡ 2 * m.size =
              length-set newmap (handle_hash h (2 * m.size)) w ∙ e in
            rw (live, some')
              (ground (
                arith,
                get_or-copy_slots n (suc i) new j (omega arith) long,
                get_or-set newmap (handle_hash h (2 * m.size)) j w free_slot,
                mod-lt h {m = 2 * m.size} (omega (arith, v.large)),
                mod_twice h m.size,
                home.home,
                ap (slot_at m) {x = j % m.size} {y = i},
                ap (slot_at m) {x = handle_hash h m.size} {y = i},
              ))
      ]

  -- The slots of the larger table.
  slot_at-enlarged :
      (j : ℕ)
      → get_or (copy_slots m.size 0 m (replicate (2 * m.size) free_slot)) j free_slot
        ≡ (if goes m j then slot_at m (j % m.size) else free_slot)
  slot_at-enlarged j = ground (
    arith,
    get_or-copy_slots m.size 0 (replicate (2 * m.size) free_slot) j (omega arith)
        (length-replicate (2 * m.size) free_slot),
    get_or-replicate (2 * m.size) j,
    mod-lt j {m = m.size} v.large,
  )

  -- Enlarging a table either changes nothing, or twice the size is allowed.
  pub handle_map_enlarge_cases :
      (mem : ℕ → Bool)
      → ((handle_map_enlarge mem m ≡ (false, m))
          × ((m.max < 2 * m.size) ⊎ (mem (2 * m.size) ≡ false)))
        ⊎ ((handle_map_enlarge mem m ≡ (true, enlarged m)) × (2 * m.size ≤ m.max))
  unfolding handle_map_enlarge enlarged
  handle_map_enlarge_cases mem = elim (Bool-cases (ltb m.max (2 * m.size))) [
    | inl e ↦ inl (rw e refl, inl (ltb→lt _ _ e))
    | inr e ↦ elim (Bool-cases (mem (2 * m.size))) [
      | inr f ↦ inl (rw (e, f) refl, inr f)
      | inl f ↦ inr (rw (e, f) refl, ground arith)
    ]
  ]

  find-enlarged : (h : ℕ) → find (enlarged m) h ≡ find m h
  unfolding enlarged
  find-enlarged h = ground (
    arith,
    slot_at-enlarged (h % (2 * m.size)),
    mod_twice h m.size,
    ap (slot_at m) {x = h % (2 * m.size) % m.size} {y = h % m.size},
    ap (λ (k : ℕ). k % (2 * m.size)) {x = m.handle (slot_at m (h % m.size)).object} {y = h},
  )

  enlarged-IsHome :
      (j : ℕ) → j < 2 * m.size → is_live (slot_at (enlarged m) j) ≡ true → IsHome (enlarged m) j
  unfolding enlarged
  enlarged-IsHome j lt live =
      let inner = mod-lt j {m = m.size} v.large in
      let home : IsHome m (j % m.size) =
        v.homes (j % m.size) inner (ground (arith, slot_at-enlarged j, live)) in
      record {
        object = ground (arith, slot_at-enlarged j, live, home.object);
        handle = ground (arith, slot_at-enlarged j, live, home.handle);
        home = ground (arith, slot_at-enlarged j, live, home.home);
      }

  pub enlarged-IsValid : IsValid (enlarged m)
  unfolding enlarged
  enlarged-IsValid = record {
    stored =
        length-copy_slots m.size 0 (replicate (2 * m.size) free_slot)
        ∙ length-replicate (2 * m.size) free_slot;
    large = omega (arith, v.large);
    homes = enlarged-IsHome;
  }

  pub enlarged-IsNew : (o : ℕ) → IsNew m o → IsNew (enlarged m) o
  unfolding enlarged
  enlarged-IsNew o new j lt live =
      ground (arith, slot_at-enlarged j, new (j % m.size), mod-lt j {m = m.size} v.large)

  -- The table after an attempt to enlarge it.
  pub record Enlarged (r : HandleMap) : Type 0 where
    pub valid : IsValid r
    pub find : (h : ℕ) → find r h ≡ find m h
    pub new : (o : ℕ) → IsNew m o → IsNew r o
    pub max : r.max ≡ m.max
    pub next_handle : r.next_handle ≡ m.next_handle

  -- handle_map_enlarge on a valid table, whether or not it enlarges it, keeps it valid, and every
  -- handle leads to the object and the count that it led to before. An object without a handle has
  -- none then, and NextHandle and the largest size stay.
  pub handle_map_enlarge_lem : (mem : ℕ → Bool) → Enlarged (handle_map_enlarge mem m).1
  handle_map_enlarge_lem mem = elim (handle_map_enlarge_cases mem) [
    | inl (e, _) ↦
        rw e
          (record { valid = v; find = λ h. refl; new = λ o n. n; max = refl; next_handle = refl })
    | inr (e, _) ↦ rw e (record {
      valid = enlarged-IsValid;
      find = find-enlarged;
      new = enlarged-IsNew;
      max = max-enlarged m;
      next_handle = next_handle-enlarged m;
    })
  ]
