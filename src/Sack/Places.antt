-- ===== src/Sack/Places.antt =====
-- The pieces that the sacks of a chain have handed out, and the apartness of their blocks.
use nifty.Base.{ℕ, ◌+◌, ◌%◌, ◌≤◌, ◌<◌, ◌≡◌, ◌⊎◌, inl, inr, List, [], ◌∷◌, arith}
use nifty.Sack.{Sack, aligned, sack_max_size}

-- A sack with a size that sack_create allows, at least `low` bytes, whose data is four bytes off the alignment.
pub record IsSack (low : ℕ) (sk : Sack) : Type 0 where
  pub low_size : low ≤ sk.size
  pub high_size : sk.size < sack_max_size
  pub last_free : sk.last ≤ sk.free
  pub free_size : sk.free ≤ sk.size
  pub offset : sk.data_at % 8 ≡ 4

abbrev pub IsChain : ℕ → List Sack → Type 0
IsChain low [] = Unit {0}
IsChain low (sk ∷ sks) = IsSack low sk × IsChain low sks

-- `malloc` gives addresses that are eight-byte aligned to the sacks, so four off to their data.
abbrev pub IsSupply : List ℕ → Type 0
IsSupply [] = Unit {0}
IsSupply (a ∷ supply) = (a % 8 ≡ 4) × IsSupply supply

-- The bytes from `p` to `p + n` are among those that a sack has handed out.
abbrev pub IsIn : Sack → ℕ → ℕ → Type 0
IsIn sk p n = (sk.data_at ≤ p) × (p + n ≤ sk.data_at + sk.free)

abbrev pub IsHeld : List Sack → ℕ → ℕ → Type 0
IsHeld [] p n = ⊥
IsHeld (sk ∷ sks) p n = IsIn sk p n ⊎ IsHeld sks p n

abbrev pub IsBeside : (p n q m : ℕ) → Type 0
IsBeside p n q m = (p + n ≤ q) ⊎ (q + m ≤ p)

abbrev pub IsAway : Sack → List Sack → Type 0
IsAway a [] = Unit {0}
IsAway a (b ∷ bs) = IsBeside a.data_at a.size b.data_at b.size × IsAway a bs

-- What `malloc` promises of the blocks that are in use at one time.
abbrev pub AreApart : List Sack → Type 0
AreApart [] = Unit {0}
AreApart (sk ∷ sks) = IsAway sk sks × AreApart sks

pub IsBeside-IsHeld :
    (low : ℕ) (a : Sack) (sks : List Sack) (p n q m : ℕ)
    → IsChain low sks
    → IsAway a sks
    → a.data_at ≤ p
    → p + n ≤ a.data_at + a.size
    → IsHeld sks q m
    → IsBeside p n q m
IsBeside-IsHeld low a [] p n q m c w l h held = absurd held
IsBeside-IsHeld low a (b ∷ bs) p n q m c w l h (inl i) =
    ground (arith, w.0, i.0, i.1, c.0.free_size)
IsBeside-IsHeld low a (b ∷ bs) p n q m c w l h (inr held) =
    IsBeside-IsHeld low a bs p n q m c.1 w.1 l h held

pub le-aligned : (p : ℕ) → p ≤ aligned p
le-aligned p = omega arith

pub aligned_lt : (p : ℕ) → aligned p < p + 8
aligned_lt p = omega arith

pub aligned_mod : (p : ℕ) → aligned p % 8 ≡ 0
aligned_mod p = omega arith

pub aligned_four : (p : ℕ) → p % 8 ≡ 4 → aligned p ≡ p + 4
aligned_four p h = omega arith
