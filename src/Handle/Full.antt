-- ===== src/Handle/Full.antt =====
-- When nft_handle_alloc runs out of handles: with memory for the tables, only where each slot of
-- the largest table holds an object.
use mathlib.Core.Path.{subst, subst₂}
use native.Mathlib.Nat.{mod-lt, mod-add-mod, mod-eq_of_lt, add-mod_right}
use nifty.Base.{
  ℕ, zero, suc, ◌+◌, ◌-◌, ◌*◌, ◌/◌, ◌%◌, ◌≤◌, ◌<◌, ◌≡◌, ◌≢◌, ◌⊎◌, inl, inr, Bool-cases, refl, Bool,
  true, false, ltb, leb, ◌==◌, arith, get_or, List, ap, ◌∙◌, sym,
}
use nifty.Handle.{
  Slot, HandleMap, free_slot, slot_at, handle_map_enlarge, scan, scan_limit, alloc_loop,
  handle_alloc,
}
use nifty.Handle.Table.{is_live, IsValid, IsNew}
use nifty.Handle.Alloc.{Same, scan_lem}
use nifty.Handle.Enlarge.{
  enlarged, enlarged-IsValid, enlarged-IsNew, max-enlarged, size-enlarged, next_handle-enlarged,
  handle_map_enlarge_cases,
}

-- Some `j` from 1 to `s` steps from `next` to the index `i`.
reaches : (next s i : ℕ) → i < s → (j : ℕ) × (0 < j) × (j ≤ s) × ((next + j) % s ≡ i)
reaches next s i lt = elim (Bool-cases (ltb (next % s) i)) [
  | inl e ↦
      let j = i - next % s in
      (
        j,
        ground arith,
        omega arith,
        sym (mod-add-mod next s j)
            ∙ (ap (λ (k : ℕ). k % s) {x = next % s + j} {y = i} (ground arith) ∙ mod-eq_of_lt lt),
      )
  | inr e ↦
      let j = i + s - next % s in
      (
        j,
        ground arith,
        ground arith,
        sym (mod-add-mod next s j)
            ∙ (ap (λ (k : ℕ). k % s) {x = next % s + j} {y = i + s}
                  (ground (arith, mod-lt next {m = s} (omega arith)))
                ∙ (add-mod_right i s ∙ mod-eq_of_lt lt)),
      )
]

-- A table after a scan that has gone through `n` slots in vain: NextHandle has gone up.
record Passed (m : HandleMap) (n : ℕ) (r : HandleMap) : Type 0 where
  slots : r.slots ≡ m.slots
  size : r.size ≡ m.size
  max : r.max ≡ m.max
  next_handle : r.next_handle ≡ m.next_handle + n

scan_open :
    (n : ℕ) (m : HandleMap) (o : ℕ)
    → leb 0x7fff_ffff_ffff_ffff m.next_handle ≡ false
    → ((slot_at m ((m.next_handle + 1) % m.size)).refcount == 0) ≡ true
    → (scan (suc n) m o).0 ≡ m.next_handle + 1
unfolding scan
scan_open n m o after open' = rw (after, open') refl

scan-zero : (m : HandleMap) (o : ℕ) → scan zero m o ≡ (0, m)
unfolding scan
scan-zero m o = refl

step_fails :
    (n : ℕ) (m : HandleMap) (o : ℕ)
    → (scan (suc n) m o).0 ≡ 0
    → m.next_handle + suc n < 0x8000_0000_0000_0000
    → (is_live (slot_at m ((m.next_handle + 1) % m.size)) ≡ true)
      × (scan (suc n) m o ≡ scan n (record m { next_handle = m.next_handle + 1 }) o)
unfolding scan
step_fails n m o z small =
    let after : leb 0x7fff_ffff_ffff_ffff m.next_handle ≡ false = ground arith in
    elim (Bool-cases ((slot_at m ((m.next_handle + 1) % m.size)).refcount == 0)) [
      | inl open' ↦ absurd (omega (arith, z, scan_open n m o after open'))
      | inr taken ↦ (ground arith, rw (after, taken) refl)
    ]

scan-Passed :
    (n : ℕ) (m : HandleMap) (o : ℕ)
    → (scan n m o).0 ≡ 0
    → m.next_handle + n < 0x8000_0000_0000_0000
    → Passed m n (scan n m o).1
scan-Passed zero m o z small =
    rw (scan-zero m o) (record { slots = refl; size = refl; max = refl; next_handle = omega arith })
scan-Passed (suc n) m o z small =
    let s = step_fails n m o z small in
    let r = record m { next_handle = m.next_handle + 1 } in
    let rest =
      scan-Passed n r o (ap (λ (t : ℕ × HandleMap). t.0) (sym s.1) ∙ z) (omega (arith, small)) in
    rw s.1 (record {
      slots = rest.slots;
      size = rest.size;
      max = rest.max;
      next_handle = ground (arith, rest.next_handle);
    })

scan_busy :
    (n : ℕ) (m : HandleMap) (o j : ℕ)
    → (scan n m o).0 ≡ 0
    → m.next_handle + n < 0x8000_0000_0000_0000
    → 0 < j
    → j ≤ n
    → is_live (slot_at m ((m.next_handle + j) % m.size)) ≡ true
scan_busy zero m o j z small p l = absurd (omega arith)
scan_busy (suc n) m o j z small p l =
    let s = step_fails n m o z small in
    let r = record m { next_handle = m.next_handle + 1 } in
    elim (Bool-cases (j == 1)) [
      | inl e ↦
          ground
            (arith, s.0, ap (λ (k : ℕ). slot_at m ((m.next_handle + k) % m.size)) {x = j} {y = 1})
      | inr e ↦ ground (
        arith,
        scan_busy n r o (j - 1) (ap (λ (t : ℕ × HandleMap). t.0) (sym s.1) ∙ z)
            (omega (arith, small)) (ground arith) (ground arith),
        ap (λ (k : ℕ). slot_at m (k % m.size)) {x = m.next_handle + 1 + (j - 1)}
            {y = m.next_handle + j},
      )
    ]

-- Every slot is in use.
abbrev pub IsFull : HandleMap → Type 0
IsFull m = (i : ℕ) → i < m.size → is_live (slot_at m i) ≡ true

-- A scan of the whole table that fails has found every slot in use.
scan-IsFull :
    (m : HandleMap) (o : ℕ)
    → (scan m.size m o).0 ≡ 0
    → m.next_handle + m.size < 0x8000_0000_0000_0000
    → IsFull m
scan-IsFull m o z small i lt =
    let (j, p, l, e) = reaches m.next_handle m.size i lt in
    ap (λ (k : ℕ). is_live (slot_at m k)) (sym e) ∙ scan_busy m.size m o j z small p l

Passed-IsFull : (m r : HandleMap) (n : ℕ) → Passed m n r → IsFull m → IsFull r
Passed-IsFull m r n p f i lt =
    ap (λ (l : List Slot). is_live (get_or l i free_slot)) p.slots ∙ f i (omega (arith, p.size))

-- The steps of the outer loop.
alloc_loop_step :
    (n : ℕ) (mem : ℕ → Bool) (m : HandleMap) (o : ℕ)
    → let t = scan (scan_limit m) m o in
      ((t.0 ≢ 0) × (alloc_loop (suc n) mem m o ≡ t))
      ⊎ ((t.0 ≡ 0)
          × ((handle_map_enlarge mem t.1).0 ≡ false)
          × (alloc_loop (suc n) mem m o ≡ (0, (handle_map_enlarge mem t.1).1)))
      ⊎ ((t.0 ≡ 0)
          × ((handle_map_enlarge mem t.1).0 ≡ true)
          × (alloc_loop (suc n) mem m o ≡ alloc_loop n mem (handle_map_enlarge mem t.1).1 o))
unfolding alloc_loop
alloc_loop_step n mem m o = elim (Bool-cases ((scan (scan_limit m) m o).0 == 0)) [
  | inr e ↦ inl (ground arith, rw e refl)
  | inl e ↦ elim (Bool-cases (handle_map_enlarge mem (scan (scan_limit m) m o).1).0) [
    | inl f ↦ inr (inr (ground arith, f, rw (e, f) refl))
    | inr f ↦ inr (inl (ground arith, f, rw (e, f) refl))
  ]
]

-- The largest size is the size doubled `k` times.
abbrev pub IsDoubled : ℕ → ℕ → ℕ → Type 0
IsDoubled zero size max = size ≡ max
IsDoubled (suc k) size max = IsDoubled k (2 * size) max

IsDoubled-le : (k size max : ℕ) → 0 < size → IsDoubled k size max → size + k ≤ max
IsDoubled-le zero size max pos d = omega arith
IsDoubled-le (suc k) size max pos d = omega (arith, IsDoubled-le k (2 * size) max (omega arith) d)

alloc_loop-zero :
    (mem : ℕ → Bool) (m : HandleMap) (o : ℕ) → alloc_loop zero mem m o ≡ scan (scan_limit m) m o
unfolding alloc_loop
alloc_loop-zero mem m o = refl

-- A table of the largest size is scanned as a whole.
largest_scan :
    (m : HandleMap) (o : ℕ)
    → m.size ≡ m.max
    → m.next_handle + m.size < 0x8000_0000_0000_0000
    → (scan (scan_limit m) m o).0 ≡ 0
    → IsFull (scan (scan_limit m) m o).1
      × ((scan (scan_limit m) m o).1.size ≡ m.max)
      × ((scan (scan_limit m) m o).1.max ≡ m.max)
largest_scan m o e small =
    let whole : scan_limit m ≡ m.size = ground arith in
    rw whole λ z.
      let p = scan-Passed m.size m o z small in
      (Passed-IsFull m (scan m.size m o).1 m.size p (scan-IsFull m o z small), p.size ∙ e, p.max)

-- The result of an allocation that has found no slot in the largest table.
abbrev pub Exhausted : ℕ → HandleMap → Type 0
Exhausted max r = IsFull r × (r.size ≡ max)

module _ (mem : ℕ → Bool) (always : (s : ℕ) → mem s ≡ true) (o : ℕ) (some' : o ≢ 0) where
  scan-Same :
      (n : ℕ) (m : HandleMap) → IsValid m → IsNew m o → (scan n m o).0 ≡ 0 → Same m (scan n m o).1
  scan-Same n m v new z = elim (scan_lem n m o v some' new) [
    | inl (_, e) ↦ e
    | inr a ↦ absurd (a.some' z)
  ]

  -- A table of the largest size is not enlarged.
  stuck : (m : HandleMap) → IsValid m → m.size ≡ m.max → handle_map_enlarge mem m ≡ (false, m)
  stuck m v e = elim (handle_map_enlarge_cases m v mem) [
    | inl (f, _) ↦ f
    | inr (_, l) ↦ absurd (omega (arith, e, l, v.large))
  ]

  -- A smaller table is.
  grows :
      (m : HandleMap)
      → IsValid m
      → 2 * m.size ≤ m.max
      → handle_map_enlarge mem m ≡ (true, enlarged m)
  grows m v e = elim (handle_map_enlarge_cases m v mem) [
    | inl (_, inl l) ↦ absurd (omega (arith, e, l))
    | inl (_, inr f) ↦ ground (arith, f, always (2 * m.size))
    | inr (f, _) ↦ f
  ]

  largest :
      (n : ℕ) (m : HandleMap)
      → IsValid m
      → IsNew m o
      → m.size ≡ m.max
      → m.next_handle + m.size < 0x8000_0000_0000_0000
      → (alloc_loop n mem m o).0 ≡ 0
      → Exhausted m.max (alloc_loop n mem m o).1
  largest zero m v new e small z =
      let b = alloc_loop-zero mem m o in
      let l = largest_scan m o e small (ap (λ (t : ℕ × HandleMap). t.0) (sym b) ∙ z) in
      rw b (l.0, l.1)
  largest (suc n) m v new e small z = elim (alloc_loop_step n mem m o) [
    | inl (a, b) ↦ absurd (a (ap (λ (t : ℕ × HandleMap). t.0) (sym b) ∙ z))
    | inr (inr (a, b, c)) ↦
        let l = largest_scan m o e small a in
        let s = stuck (scan (scan_limit m) m o).1 (scan-Same _ m v new a).valid (l.1 ∙ sym l.2) in
        ground (arith, b, ap (λ (t : Bool × HandleMap). t.0) s)
    | inr (inl (a, b, c)) ↦
        let l = largest_scan m o e small a in
        let s = stuck (scan (scan_limit m) m o).1 (scan-Same _ m v new a).valid (l.1 ∙ sym l.2) in
        rw (c, s) (l.0, l.1)
  ]

  smaller :
      (n k : ℕ) (m : HandleMap)
      → IsValid m
      → IsNew m o
      → IsDoubled k m.size m.max
      → k ≤ n
      → m.next_handle + 2 * m.max < 0x8000_0000_0000_0000 + m.size
      → (alloc_loop n mem m o).0 ≡ 0
      → Exhausted m.max (alloc_loop n mem m o).1
  smaller n zero m v new d l small z = largest n m v new d (omega (arith, d, v.large)) z
  smaller zero (suc k) m v new d l small z = absurd (omega arith)
  smaller (suc n) (suc k) m v new d l small z =
      let le = IsDoubled-le k (2 * m.size) m.max (omega (arith, v.large)) d in
      let part : scan_limit m ≡ m.size / 2 = ground (arith, v.large) in
      let t = (scan (scan_limit m) m o).1 in
      elim (alloc_loop_step n mem m o) [
        | inl (a, b) ↦ absurd (a (ap (λ (t : ℕ × HandleMap). t.0) (sym b) ∙ z))
        | inr (inl (a, b, c)) ↦
            let e = scan-Same _ m v new a in
            let p = scan-Passed (scan_limit m) m o a (omega (arith, part)) in
            let g = grows t e.valid (omega (arith, p.size, p.max, le)) in
            ground (arith, b, ap (λ (t : Bool × HandleMap). t.0) g)
        | inr (inr (a, b, c)) ↦
            let e = scan-Same _ m v new a in
            let p = scan-Passed (scan_limit m) m o a (omega (arith, part)) in
            let g = grows t e.valid (omega (arith, p.size, p.max, le)) in
            let r = enlarged t in
            let size : r.size ≡ 2 * m.size = size-enlarged t ∙ ap (λ (k : ℕ). 2 * k) p.size in
            let max : r.max ≡ m.max = max-enlarged t ∙ p.max in
            let next : r.next_handle ≡ m.next_handle + scan_limit m =
              next_handle-enlarged t ∙ p.next_handle in
            let same : alloc_loop (suc n) mem m o ≡ alloc_loop n mem r o =
              c ∙ ap (λ (q : Bool × HandleMap). alloc_loop n mem q.1 o) g in
            rw same (
              subst (λ (k : ℕ). Exhausted k (alloc_loop n mem r o).1) max
                (smaller n k r (enlarged-IsValid t e.valid)
                  (enlarged-IsNew t e.valid o (e.new o new))
                  (subst₂ (IsDoubled k) (sym size) (sym max) d) (omega (arith, l))
                  (omega (arith, small, size, max, next, part))
                  (ap (λ (q : ℕ × HandleMap). q.0) (sym same) ∙ z)))
      ]

-- Where malloc never fails, the largest size is the size of the valid table doubled some times,
-- and NextHandle is far enough from the end of its range, nft_handle_alloc returns zero only when
-- the table has the largest size and each of its slots is in use.
pub handle_alloc-IsFull :
    (mem : ℕ → Bool) (m : HandleMap) (o k : ℕ)
    → ((s : ℕ) → mem s ≡ true)
    → IsValid m
    → o ≢ 0
    → IsNew m o
    → IsDoubled k m.size m.max
    → m.next_handle + 2 * m.max < 0x8000_0000_0000_0000 + m.size
    → (handle_alloc mem m o).0 ≡ 0
    → IsFull (handle_alloc mem m o).1 × ((handle_alloc mem m o).1.size ≡ m.max)
unfolding handle_alloc
handle_alloc-IsFull mem m o k always v some' new d small z =
    smaller mem always o some' m.max k m v new d
      (omega (arith, IsDoubled-le k m.size m.max v.large d)) small z
