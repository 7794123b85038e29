-- ===== src/Vector/Stack.antt =====
-- A vector that grows at its end: what is put in last is taken out first.
use nifty.Base.{
  ℕ, ◌+◌, ◌-◌, ◌*◌, ◌≤◌, ◌<◌, ◌≡◌, ◌⊎◌, inl, inr, refl, false, Bool-cases, ◌++◌, ◌==◌, set, cells,
  Alloc, none, some, Status, ok, enomem, length, arith, length-append, length-cells, length-set,
  get_or-set, get_or-append, ap,
}
use nifty.Vector.{Vector, at, reserve, put_last, vector_append, vector_pop}

-- The array has a cell more than the capacity, for the null behind the items.
pub record IsValid (v : Vector) : Type 0 where
  pub stored : length v.vec ≡ v.cap + 1
  pub large : 0 < v.cap
  pub fits : v.len ≤ v.cap

-- The same items, and room for one more.
pub record Roomy (v r : Vector) : Type 0 where
  pub valid : IsValid r
  pub room : r.len < r.cap
  pub len : r.len ≡ v.len
  pub same : (i : ℕ) → i < v.len → at r i ≡ at v i

pub reserve_lem :
    (mem : Alloc) (v : Vector)
    → IsValid v
    → (((reserve mem v).0 ≡ ok) × Roomy v (reserve mem v).1) ⊎ (reserve mem v ≡ (enomem, v))
unfolding reserve
reserve_lem mem v w = elim (Bool-cases (v.len == v.cap)) [
  | inr e ↦ inl (
    rw e refl,
    rw e (record { valid = w; room = ground (arith, w.fits); len = refl; same = λ i l. refl }),
  )
  | inl e ↦ rw e (grown mem)
]
  where
    grown :
        (m : Alloc)
        → let r : Status × Vector = elim m [
          | none ↦ (enomem, v)
          | some junk ↦ (ok, record v { cap = 2 * v.cap; vec = v.vec ++ cells junk v.cap })
        ] in
          ((r.0 ≡ ok) × Roomy v r.1) ⊎ (r ≡ (enomem, v))
    grown none = inr refl
    grown (some junk) = inl (
      refl,
      record {
        valid = record {
          stored =
              omega
                (arith, length-append v.vec (cells junk v.cap), length-cells junk v.cap, w.stored);
          large = omega (arith, w.large);
          fits = omega (arith, w.fits);
        };
        room = omega (arith, w.fits, w.large);
        len = refl;
        same = λ i l. get_or-append v.vec (cells junk v.cap) i 0 (omega (arith, w.stored, w.fits));
      },
    )

-- The vector with one item more at its end, behind the items it had, and a null behind that.
pub record Appended (v : Vector) (item : ℕ) (r : Vector) : Type 0 where
  pub valid : IsValid r
  pub len : r.len ≡ v.len + 1
  pub last : at r v.len ≡ item
  pub null : at r r.len ≡ 0
  pub same : (i : ℕ) → i < v.len → at r i ≡ at v i

put_last-Appended : (v r : Vector) (item : ℕ) → Roomy v r → Appended v item (put_last r item)
unfolding put_last
put_last-Appended v r item m =
    let a = λ (j : ℕ). get_or-set r.vec r.len j item 0 in
    let b = λ (j : ℕ). get_or-set (set r.vec r.len item) (r.len + 1) j 0 0 in
    let e = length-set r.vec r.len item in
    record {
      valid = record {
        stored = ground (arith, e, length-set (set r.vec r.len item) (r.len + 1) 0, m.valid.stored);
        large = m.valid.large;
        fits = omega (arith, m.room);
      };
      len = omega (arith, m.len);
      last = ground (arith, a v.len, b v.len, e, m.len, m.room, m.valid.stored);
      null = ground (arith, b (r.len + 1), e, m.room, m.valid.stored);
      same = λ i l. ground (arith, a i, b i, e, m.len, m.room, m.valid.stored, m.same i l);
    }

-- vector_append on a valid vector puts the item behind the others, with a null behind it, and
-- leaves the vector valid, whether or not the array has to grow; or it returns ENOMEM, and nothing
-- has changed.
pub vector_append_lem :
    (mem : Alloc) (v : Vector) (item : ℕ)
    → IsValid v
    → (((vector_append mem v item).0 ≡ ok) × Appended v item (vector_append mem v item).1)
      ⊎ (vector_append mem v item ≡ (enomem, v))
unfolding vector_append
vector_append_lem mem v item w = elim (reserve_lem mem v w) [
  | inr e ↦ rw e (inr refl)
  | inl (e, m) ↦ rw e (inl (refl, put_last-Appended v (reserve mem v).1 item m))
]

-- From a vector with an item put behind the others vector_pop takes that item out, and what it
-- leaves has the length from before, and at each index below that the item from before.
pub vector_pop-append :
    (v r : Vector) (item i : ℕ)
    → Appended v item r
    → i < v.len
    → ((vector_pop r).0 ≡ ok)
      × ((vector_pop r).1 ≡ item)
      × ((vector_pop r).2.len ≡ v.len)
      × (at (vector_pop r).2 i ≡ at v i)
unfolding vector_pop
vector_pop-append v r item i a l =
    let some' : (r.len == 0) ≡ false = ground (arith, a.len) in
    rw some' (
      refl,
      ground (arith, a.last, a.len, ap (at r) {x = r.len - 1} {y = v.len}),
      omega (arith, a.len),
      a.same i l,
    )
