-- ===== src/Sack/Realloc/Later.antt =====
-- What a call of sack_alloc or sack_stralloc does to one sack of the chain.
use mathlib.Core.Path.{subst}
use nifty.Base.{
  ℕ, zero, suc, ◌+◌, ◌≤◌, ◌<◌, ◌≡◌, ◌⊎◌, inl, inr, refl, ap, Option, none, some, List, [], ◌∷◌, ltb,
  ◌==◌, ◌||◌, arith, Bool-cases,
}
use nifty.Sack.{
  Sack, Given, sack_max_size, aligned, has_room, go_on, chain_loop, aligned_place, next_aligned,
  next_string, sack_alloc, sack_stralloc,
}
use nifty.Sack.Places.{IsChain}
use nifty.Sack.Gives.{IsPlacing, end_whole}
use nifty.Sack.Alloc.{aligned-IsPlacing, string-IsPlacing}
use nifty.Sack.Realloc.{find_sack, sack_at, another}
use nifty.Sack.Realloc.Copies.{IsChain-weaken, if_cases}

-- The sack at a place of the chain.
abbrev pub IsAt : List Sack → ℕ → Sack → Type 0
IsAt [] i sk = ⊥
IsAt (b ∷ bs) zero sk = b ≡ sk
IsAt (b ∷ bs) (suc i) sk = IsAt bs i sk

-- The sack is as it was, or it has handed out a piece of `n` bytes behind all others.
abbrev pub IsLater : ℕ → Sack → Sack → Type 0
IsLater n sk sk' =
    ((sk'.last ≡ sk.last) × (sk'.free ≡ sk.free))
    ⊎ ((sk.free ≤ sk'.last) × (sk'.last + n ≤ sk.size))

sack_at-IsLater :
    (n : ℕ) (sks : List Sack) (i : ℕ) (sk : Sack) → IsAt sks i sk → IsLater n sk (sack_at sks i sk)
sack_at-IsLater n [] i sk h = absurd h
sack_at-IsLater n (b ∷ bs) zero sk h =
    inl (ap (λ (s : Sack). s.last) h, ap (λ (s : Sack). s.free) h)
sack_at-IsLater n (b ∷ bs) (suc i) sk h = sack_at-IsLater n bs i sk h

module _ (low : ℕ) (R : ℕ → Type 0) (place next_size : Sack → ℕ) (n : ℕ)
    (at : IsPlacing low R place next_size n) where
  go_on-IsLater :
      (b : Sack) (sks : List Sack) (supply : List ℕ) (rest : Given) (i : ℕ) (sk : Sack)
      → IsAt sks i sk
      → IsLater n sk (sack_at rest.chain i sk)
      → IsLater n sk (sack_at (go_on place next_size n b sks supply rest).chain i sk)
  go_on-IsLater b [] supply rest i sk h l = absurd h
  go_on-IsLater b (_ ∷ _) supply rest i sk h l = l

  chain_loop-IsLater :
      (sks : List Sack) (supply : List ℕ) (i : ℕ) (sk : Sack)
      → IsChain low sks
      → IsAt sks i sk
      → IsLater n sk (sack_at (chain_loop place next_size n sks supply).chain i sk)
  unfolding chain_loop
  chain_loop-IsLater [] supply i sk v h = absurd h
  chain_loop-IsLater (b ∷ bs) supply zero sk v h =
      elim (Bool-cases (has_room place next_size n b)) [
        | inl e ↦ rw e (
            let whole = end_whole low R place next_size n at b v.0 in
            let room = at.free-le-place b v.0 in
            let free = ap (λ (s : Sack). s.free) h in
            let size = ap (λ (s : Sack). s.size) h in
            inr (omega (arith, room, free), ground (arith, e, whole, size)))
        | inr e ↦ rw e (inl (ap (λ (s : Sack). s.last) h, ap (λ (s : Sack). s.free) h))
      ]
  chain_loop-IsLater (b ∷ bs) supply (suc i) sk v h =
      elim (Bool-cases (has_room place next_size n b)) [
        | inl e ↦ rw e (sack_at-IsLater n bs i sk h)
        | inr e ↦
            rw e (go_on-IsLater b bs supply _ i sk h (chain_loop-IsLater bs supply i sk v.1 h))
      ]

-- sack_realloc's new piece: its sack is one of those that are IsLater.
pub another-IsLater :
    (chain : List Sack) (ptr n : ℕ) (supply : List ℕ) (i : ℕ) (sk : Sack)
    → IsChain 4 chain
    → n + 4 < sack_max_size
    → IsAt chain i sk
    → IsLater n sk (sack_at (another chain ptr n supply).chain i sk)
unfolding another sack_alloc sack_stralloc
another-IsLater chain ptr zero supply i sk v small h = sack_at-IsLater 0 chain i sk h
another-IsLater chain ptr (suc n) supply i sk v small h =
    if_cases (λ (g : Given). IsLater (suc n) sk (sack_at g.chain i sk)) (ptr == aligned ptr)
      (λ _.
        chain_loop-IsLater 4 _ aligned_place (next_aligned (suc n)) (suc n)
          (aligned-IsPlacing (suc n) small) chain supply i sk v h)
      (λ _.
        let one : suc n ≡ n + 1 = omega arith in
        rw one (
          chain_loop-IsLater 0 _ (λ s. s.free) (next_string (n + 1)) (n + 1)
            (string-IsPlacing (n + 1) (omega (arith, small))) chain supply i sk
            (IsChain-weaken chain v) h))

abbrev FoundAt : List Sack → ℕ → Option (ℕ × Sack) → Type 0
FoundAt sks k none = Unit {0}
FoundAt sks k (some (i, sk)) = (j : ℕ) × (i ≡ k + j) × IsAt sks j sk

deeper :
    (b : Sack) (bs : List Sack) (k : ℕ) (o : Option (ℕ × Sack))
    → FoundAt bs (k + 1) o
    → FoundAt (b ∷ bs) k o
deeper b bs k none h = tt
deeper b bs k (some (i, sk)) (j, e, h) = (suc j, omega (arith, e), h)

-- find_sack returns a sack of the chain, and its place.
find_sack-found : (sks : List Sack) (k ptr : ℕ) → FoundAt sks k (find_sack sks k ptr)
unfolding find_sack
find_sack-found [] k ptr = tt
find_sack-found (b ∷ bs) k ptr =
    if_cases (FoundAt (b ∷ bs) k) (ltb ptr b.data_at || ltb (b.data_at + b.free) ptr)
      (λ _. deeper b bs k (find_sack bs (k + 1) ptr) (find_sack-found bs (k + 1) ptr))
      (λ _. (0, omega arith, refl))

found_here : (sks : List Sack) (i : ℕ) (sk : Sack) → FoundAt sks 0 (some (i, sk)) → IsAt sks i sk
found_here sks i sk (j, e, h) = let same : i ≡ j = omega (arith, e) in rw same h

pub find_sack-IsAt :
    (sks : List Sack) (ptr i : ℕ) (sk : Sack) → find_sack sks 0 ptr ≡ some (i, sk) → IsAt sks i sk
find_sack-IsAt sks ptr i sk e =
    found_here sks i sk (subst (FoundAt sks 0) e (find_sack-found sks 0 ptr))
