-- ===== src/Vector/Sort/Strides.antt =====
-- The strides that vector_sort goes by.
use nifty.Base.{ℕ, zero, suc, ◌+◌, ◌*◌, ◌/◌, ◌≤◌, ◌<◌, ◌≡◌, inl, inr, refl, Bool-cases, leb, arith}
use nifty.Vector.Sort.{first_stride}

-- The strides 1, 4, 13 and so on.
unfoldable pub stride : ℕ → ℕ
stride zero = 1
stride (suc k) = 3 * stride k + 1

pub stride_large : (k : ℕ) → k < stride k
unfolding stride
stride_large zero = omega arith
stride_large (suc k) = omega (arith, stride_large k)

-- The first stride is one of them, and not the least where it is not beyond the length.
pub first_stride-stride :
    (n len k : ℕ)
    → (m : ℕ) × (first_stride n len (stride k) ≡ stride m)
      × (k ≤ m)
      × (0 < n → stride k ≤ len → k < m)
unfolding first_stride stride
first_stride-stride zero len k = (k, refl, omega arith, λ l. absurd (omega arith))
first_stride-stride (suc n) len k =
    let (m, e, l, _) = first_stride-stride n len (suc k) in
    elim (Bool-cases (leb (stride k) len)) [
      | inl f ↦ rw f (m, e, omega arith, λ p q. omega arith)
      | inr f ↦ rw f (k, refl, omega arith, λ p q. absurd (ground arith))
    ]

pub third : (k : ℕ) → stride (suc k) / 3 ≡ stride k
unfolding stride
third k = omega arith
