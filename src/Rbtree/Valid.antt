-- ===== src/Rbtree/Valid.antt =====
-- The states that a red-black tree may be in, and its number of entries.
use nifty.Base.{
  ℕ, zero, suc, ◌+◌, ◌-◌, ◌≤◌, ◌<◌, ◌≡◌, ◌⊎◌, refl, List, [], ◌∷◌, leb, ltb, ◌&&◌, if◌then◌else◌,
  arith, length,
}
use nifty.Rbtree.{Rbtree}
use nifty.Rbtree.Shape.{occurs, one_if}
use nifty.Rbtree.Fixup.{AreApart}
use nifty.Rbtree.Fixup.Loop.{IsRedBlack}

-- The nodes below `n`, without the sentinel.
abbrev pub in_use : ℕ → ℕ → ℕ
in_use n j = if leb 1 j && ltb j n then 1 else 0

-- The nodes in use are those of the tree, each once.
pub record IsValid (t : Rbtree) (xs : List ℕ) : Type 0 where
  pub positive : 0 < t.next_free
  pub fits : (t.next_free ≤ t.num_nodes) ⊎ ((t.num_nodes ≡ 0) × (t.next_free ≡ 1))
  pub held : 0 < t.num_nodes → IsRedBlack xs t.nodes
  pub counted : (j : ℕ) → occurs j xs ≡ in_use t.next_free j
  pub walk : t.current < t.next_free

total : ℕ → List ℕ → ℕ
total zero xs = 0
total (suc n) xs = total n xs + occurs n xs

total-nil : (n : ℕ) → total n [] ≡ 0
unfolding total occurs
total-nil zero = refl
total-nil (suc n) = omega (arith, total-nil n)

total-cons : (n x : ℕ) (xs : List ℕ) → total n (x ∷ xs) ≡ total n xs + (if ltb x n then 1 else 0)
unfolding total occurs one_if
total-cons zero x xs = ground arith
total-cons (suc n) x xs = ground (arith, total-cons n x xs)

total-eq-length :
    (n : ℕ) (xs : List ℕ) → ((j : ℕ) → n ≤ j → occurs j xs ≡ 0) → total n xs ≡ length xs
unfolding occurs one_if
total-eq-length n [] h = total-nil n
total-eq-length n (x ∷ xs) h =
    let rest = total-eq-length n xs (λ j le. omega (arith, h j le)) in
    ground (arith, total-cons n x xs, h x, rest)

total-in_use :
    (n m : ℕ) (xs : List ℕ) → ((j : ℕ) → occurs j xs ≡ in_use m j) → n ≤ m → total n xs ≡ n - 1
unfolding total
total-in_use zero m xs h le = refl
total-in_use (suc n) m xs h le = ground (arith, total-in_use n m xs h, h n)

-- The nodes in use are as many as the entries.
pub length_places : (n : ℕ) (xs : List ℕ) → ((j : ℕ) → occurs j xs ≡ in_use n j) → length xs ≡ n - 1
length_places n xs h =
    let below : (j : ℕ) → n ≤ j → occurs j xs ≡ 0 = λ j le. ground (arith, h j) in
    omega (arith, total-eq-length n xs below, total-in_use n n xs h)

pub counted-AreApart : (n : ℕ) (xs : List ℕ) → ((j : ℕ) → occurs j xs ≡ in_use n j) → AreApart xs
counted-AreApart n xs h = record { once = λ j. ground (arith, h j); nil = ground (arith, h 0) }
