-- ===== src/Queue/Resize.antt =====
-- Growing and shrinking the array keep the items and their order.
use native.Mathlib.Nat.{mod-eq_of_lt, zero-add}
use nifty.Base.{
  Alloc, ℕ, ◌+◌, ◌-◌, ◌*◌, ◌/◌, ◌%◌, ◌<◌, ◌≡◌, true, none, some, arith, get_or, inl, inr,
  Option-cases, blit, get_or-blit, length-blit, take, get_or-take, replicate, length-replicate,
  cells, get_or-append, ap, ◌∙◌,
}
use nifty.Queue.{Queue, count, grown, unwrapped, queue_grow, packed, queue_shrink, must_shrink}
use nifty.Queue.Valid.{IsValid, length-grown}
use nifty.Queue.Items.{window, items, window_ext, wrap}

get_or-grown :
    (junk : ℕ → ℕ) (q : Queue) (i : ℕ)
    → IsValid q
    → i < q.size
    → get_or (grown junk q) i 0 ≡ get_or q.array i 0
unfolding grown
get_or-grown junk q i v lt = ground (
  arith,
  get_or-blit (replicate (2 * q.size) 0) 0 q.array 0 q.size i,
  length-replicate {A = ℕ} (2 * q.size) 0,
  get_or-append q.array (cells junk q.size) i 0,
  ap (λ (k : ℕ). get_or q.array k 0) {x = 0 + (i - 0)} {y = i},
)

module _ (junk : ℕ → ℕ) (q : Queue) (f : ℕ) (v : IsValid q) (e : q.first ≡ some f) where
  -- Each item stands where it stood, or `size` further on if it had gone round.
  grown_cell :
      (i : ℕ)
      → i < count q
      → get_or (unwrapped junk q) ((f + i) % (2 * q.size)) 0 ≡ get_or q.array ((f + i) % q.size) 0
  unfolding unwrapped
  grown_cell i lt =
      let hf : f < q.size = ground arith in
      let in_grown : f + i < 2 * q.size = ground arith in
      let g = grown junk q in
      rw (mod-eq_of_lt in_grown) (
        ground (
          arith,
          wrap q.size f i hf,
          length-grown junk q v,
          get_or-blit g q.size g 0 q.next (f + i),
          get_or-grown junk q (f + i) v,
          get_or-grown junk q (f + i - q.size) v,
          ap (λ (k : ℕ). get_or g k 0) {x = 0 + (f + i - q.size)} {y = f + i - q.size},
        ))

-- queue_grow keeps the items of a valid queue and their order, whether or not there is memory.
pub items-queue_grow : (mem : Alloc) (q : Queue) → IsValid q → items (queue_grow mem q).1 ≡ items q
unfolding queue_grow
items-queue_grow none q v = ground arith
items-queue_grow (some junk) q v = elim (Option-cases q.first) [
  | inl e ↦ ground arith
  | inr (f, e) ↦ ground (
    arith,
    window_ext (unwrapped junk q) (2 * q.size) f q.array q.size f (count q)
        (grown_cell junk q f v e),
  )
]

module _ (q : Queue) (f : ℕ) (v : IsValid q) (e : q.first ≡ some f)
    (sparse : must_shrink q ≡ true) where
  packed_cell :
      (i : ℕ) → i < count q → get_or (packed q f) i 0 ≡ get_or q.array ((f + i) % q.size) 0
  unfolding packed
  packed_cell i lt =
      let hf : f < q.size = ground arith in
      let shifted = blit q.array (q.size - f) q.array 0 q.next in
      ground (
        arith,
        wrap q.size f i hf,
        get_or-blit q.array 0 q.array f (count q) i,
        length-blit q.array (q.size - f) q.array 0 q.next,
        get_or-blit shifted 0 shifted f (q.size - f) i,
        get_or-blit q.array (q.size - f) q.array 0 q.next i,
        get_or-blit q.array (q.size - f) q.array 0 q.next (f + i),
        ap (λ (k : ℕ). get_or q.array k 0) {x = f + (i - 0)} {y = f + i},
        ap (λ (k : ℕ). get_or shifted k 0) {x = f + (i - 0)} {y = f + i},
        ap (λ (k : ℕ). get_or q.array k 0) {x = 0 + (i - (q.size - f))} {y = f + i - q.size},
      )

  window-packed :
      window (take (q.size / 2) (packed q f)) (q.size / 2) 0 (count q)
      ≡ window q.array q.size f (count q)
  window-packed =
      window_ext (take (q.size / 2) (packed q f)) (q.size / 2) 0 q.array q.size f (count q) λ i lt.
        let lt' : 0 + i < q.size / 2 = ground arith in
        rw (mod-eq_of_lt lt') (
          get_or-take (q.size / 2) (packed q f) (0 + i) 0 lt'
          ∙ (ap (λ k. get_or (packed q f) k 0) (zero-add i) ∙ packed_cell i lt))

-- queue_shrink keeps the items of a valid queue and their order, where SHRINK(q) holds.
pub items-queue_shrink :
    (q : Queue) → IsValid q → must_shrink q ≡ true → items (queue_shrink q) ≡ items q
unfolding queue_shrink
items-queue_shrink q v sparse = elim (Option-cases q.first) [
  | inl e ↦ ground arith
  | inr (f, e) ↦ ground (arith, window-packed q f v e sparse)
]
