-- ===== src/Queue/Items.antt =====
-- The items of an `nft_queue`, first to last: the abstract view of the circular array.
use nifty.Base.{
  ℕ, zero, suc, ◌+◌, ◌-◌, ◌%◌, ◌≤◌, ◌<◌, ◌≡◌, refl, sym, ap, ap₂, ◌∙◌, none, some, List, [], ◌∷◌,
  ◌++◌, arith, get_or, set, length, inl, inr, Option-cases, Bool-cases, ltb, if◌then◌else◌, ltb→lt,
  get_or-set, ◌≢◌,
}
use native.Mathlib.Nat.{mod-eq_of_lt, mod-eq-sub-mod, mod-add-mod}
use nifty.Queue.{Queue, count}

-- `n` cells of the array from index `h` on, going round at `m`.
abbrev pub window : List ℕ → ℕ → ℕ → ℕ → List ℕ
window a m h zero = []
window a m h (suc n) = get_or a (h % m) 0 ∷ window a m (h + 1) n

abbrev pub items : Queue → List ℕ
items q = elim q.first [ none ↦ [] | some f ↦ window q.array q.size f (count q) ]

pub length-window : (a : List ℕ) (m h n : ℕ) → length (window a m h n) ≡ n
length-window a m h zero = refl
length-window a m h (suc n) = ap suc (length-window a m (h + 1) n)

-- COUNT(q) is the number of items.
pub length-items : (q : Queue) → length (items q) ≡ count q
length-items q = elim (Option-cases q.first) [
  | inl e ↦ ground arith
  | inr (f, e) ↦ ground (arith, length-window q.array q.size f (count q))
]

-- Windows are equal where their cells are.
pub window_ext :
    (a : List ℕ) (m h : ℕ) (b : List ℕ) (o k n : ℕ)
    → ((i : ℕ) → i < n → get_or a ((h + i) % m) 0 ≡ get_or b ((k + i) % o) 0)
    → window a m h n ≡ window b o k n
window_ext a m h b o k zero same = refl
window_ext a m h b o k (suc n) same =
    ap₂ ◌∷◌ (at_start (same 0 (omega arith)))
      (window_ext a m (h + 1) b o (k + 1) n (λ i lt. shift i (same (suc i) (omega arith))))
  where
    at_start :
        get_or a ((h + 0) % m) 0 ≡ get_or b ((k + 0) % o) 0
        → get_or a (h % m) 0 ≡ get_or b (k % o) 0
    at_start e =
        let p : h + 0 ≡ h = omega arith in let r : k + 0 ≡ k = omega arith in rw (p, r) at e

    shift :
        (i : ℕ)
        → get_or a ((h + suc i) % m) 0 ≡ get_or b ((k + suc i) % o) 0
        → get_or a ((h + 1 + i) % m) 0 ≡ get_or b ((k + 1 + i) % o) 0
    shift i e =
        let p : h + suc i ≡ h + 1 + i = omega arith in
        let r : k + suc i ≡ k + 1 + i = omega arith in rw (p, r) at e

pub window_snoc :
    (a : List ℕ) (m h n : ℕ)
    → window a m h (suc n) ≡ window a m h n ++ (get_or a ((h + n) % m) 0 ∷ [])
window_snoc a m h zero = let p : h + 0 ≡ h = omega arith in rw p
window_snoc a m h (suc n) =
    let p : h + suc n ≡ h + 1 + n = omega arith in
    rw p (ap (◌∷◌ (get_or a (h % m) 0)) (window_snoc a m (h + 1) n))

-- An index past the end of the array, once round.
pub wrap : (m h i : ℕ) → h < m → i ≤ m → (h + i) % m ≡ (if ltb (h + i) m then h + i else h + i - m)
wrap m h i hh hi = elim (Bool-cases (ltb (h + i) m)) [
  | inl e ↦ rw e (mod-eq_of_lt (ltb→lt _ _ e))
  | inr e ↦ rw e (
      mod-eq-sub-mod {n = h + i} {m = m} (ground arith)
      ∙ mod-eq_of_lt {n = h + i - m} {m = m} (ground arith))
]

-- A window does not see a write outside it.
pub window-set :
    (a : List ℕ) (m h n j x : ℕ)
    → j < length a
    → ((i : ℕ) → i < n → (h + i) % m ≢ j)
    → window (set a j x) m h n ≡ window a m h n
window-set a m h n j x hj out =
    window_ext (set a j x) m h a m h n
      λ i lt. ground (arith, get_or-set a j ((h + i) % m) x 0, out i)

-- The first item, and the window that starts at NEXT.
pub window_step :
    (a : List ℕ) (m h n : ℕ)
    → 0 < n
    → window a m h n ≡ get_or a (h % m) 0 ∷ window a m ((h + 1) % m) (n - 1)
window_step a m h zero p = absurd (omega arith)
window_step a m h (suc n) p =
    let r : suc n - 1 ≡ n = omega arith in
    rw r (
      ap (◌∷◌ (get_or a (h % m) 0)) (
        window_ext a m (h + 1) a m ((h + 1) % m) n
          λ i lt. ap (λ k. get_or a k 0) (sym (mod-add-mod (h + 1) m i))))
