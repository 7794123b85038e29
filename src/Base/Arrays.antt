-- ===== src/Base/Arrays.antt =====
-- C arrays as lists under native indices, and the copies that the code makes between them.
use Prim.Native.Nat.{ℕ, zero, suc, ◌+◌, ◌-◌, ◌≤◌, ◌<◌, min}
use mathlib.Core.Path.{◌≡◌, refl, ap}
use mathlib.Core.Bool.{◌&&◌}
use mathlib.Core.List.{List, [], ◌∷◌, ◌++◌}
use mathlib.Core.Option.{Option, none, some}
use native.Mathlib.Omega.{arith}
use nifty.Base.Tests.{ltb, leb, ◌==◌, if◌then◌else◌}

module _ {ℓ} {A : Type ℓ} where
  abbrev pub length : List A → ℕ
  length [] = 0
  length (x ∷ xs) = suc (length xs)

  abbrev pub get_elem? : List A → ℕ → Option A
  get_elem? [] i = none
  get_elem? (x ∷ xs) zero = some x
  get_elem? (x ∷ xs) (suc i) = get_elem? xs i

  abbrev pub get_or : List A → ℕ → A → A
  get_or [] i d = d
  get_or (x ∷ xs) zero d = x
  get_or (x ∷ xs) (suc i) d = get_or xs i d

  -- A write out of bounds changes nothing.
  abbrev pub set : List A → ℕ → A → List A
  set [] i v = []
  set (x ∷ xs) zero v = v ∷ xs
  set (x ∷ xs) (suc i) v = x ∷ set xs i v

  abbrev pub take : ℕ → List A → List A
  take zero xs = []
  take (suc n) [] = []
  take (suc n) (x ∷ xs) = x ∷ take n xs

  abbrev pub replicate : ℕ → A → List A
  replicate zero a = []
  replicate (suc n) a = a ∷ replicate n a

  pub length-append : (xs ys : List A) → length (xs ++ ys) ≡ length xs + length ys
  length-append [] ys = omega arith
  length-append (x ∷ xs) ys = omega (arith, length-append xs ys)

  pub length-set : (xs : List A) (i : ℕ) (v : A) → length (set xs i v) ≡ length xs
  length-set [] i v = refl
  length-set (x ∷ xs) zero v = refl
  length-set (x ∷ xs) (suc i) v = ap suc (length-set xs i v)

  pub length-take : (n : ℕ) (xs : List A) → length (take n xs) ≡ min n (length xs)
  length-take zero xs = omega arith
  length-take (suc n) [] = omega arith
  length-take (suc n) (x ∷ xs) = omega (arith, length-take n xs)

  pub length-replicate : (n : ℕ) (a : A) → length (replicate n a) ≡ n
  length-replicate zero a = refl
  length-replicate (suc n) a = ap suc (length-replicate n a)

  pub get_or-set :
      (xs : List A) (i j : ℕ) (v d : A)
      → i < length xs
      → get_or (set xs i v) j d ≡ (if i == j then v else get_or xs j d)
  get_or-set [] i j v d h = absurd (omega arith)
  get_or-set (x ∷ xs) zero zero v d h = refl
  get_or-set (x ∷ xs) zero (suc j) v d h = ground arith
  get_or-set (x ∷ xs) (suc i) zero v d h = ground arith
  get_or-set (x ∷ xs) (suc i) (suc j) v d h = ground (arith, get_or-set xs i j v d)

  pub get_or-append :
      (xs ys : List A) (i : ℕ) (d : A) → i < length xs → get_or (xs ++ ys) i d ≡ get_or xs i d
  get_or-append [] ys i d h = absurd (omega arith)
  get_or-append (x ∷ xs) ys zero d h = refl
  get_or-append (x ∷ xs) ys (suc i) d h = get_or-append xs ys i d (omega arith)

  pub get_or-take :
      (n : ℕ) (xs : List A) (i : ℕ) (d : A) → i < n → get_or (take n xs) i d ≡ get_or xs i d
  get_or-take zero xs i d h = absurd (omega arith)
  get_or-take (suc n) [] i d h = refl
  get_or-take (suc n) (x ∷ xs) zero d h = refl
  get_or-take (suc n) (x ∷ xs) (suc i) d h = get_or-take n xs i d (omega arith)

-- `memcpy` and `memmove` of `n` pointers from `src + s` to `dst + d`. The source is read as it was
-- before the copy, also where both are one array.
unfoldable pub blit : List ℕ → ℕ → List ℕ → ℕ → ℕ → List ℕ
blit dst d src s zero = dst
blit dst d src s (suc n) = blit (set dst d (get_or src s 0)) (d + 1) src (s + 1) n

pub length-blit :
    (dst : List ℕ) (d : ℕ) (src : List ℕ) (s n : ℕ) → length (blit dst d src s n) ≡ length dst
unfolding blit
length-blit dst d src s zero = refl
length-blit dst d src s (suc n) = omega (
  arith,
  length-blit (set dst d (get_or src s 0)) (d + 1) src (s + 1) n,
  length-set dst d (get_or src s 0),
)

-- The cells from `d` up to `d + n` hold the copy, and the others what they held.
pub get_or-blit :
    (dst : List ℕ) (d : ℕ) (src : List ℕ) (s n i : ℕ)
    → d + n ≤ length dst
    → get_or (blit dst d src s n) i 0
      ≡ (if leb d i && ltb i (d + n) then get_or src (s + (i - d)) 0 else get_or dst i 0)
unfolding blit
get_or-blit dst d src s zero i h = ground arith
get_or-blit dst d src s (suc n) i h =
    let v = get_or src s 0 in
    ground (
      arith,
      get_or-blit (set dst d v) (d + 1) src (s + 1) n i,
      length-set dst d v,
      get_or-set dst d i v 0,
      ap (λ (k : ℕ). get_or src k 0) {x = s + 1 + (i - (d + 1))} {y = s + (i - d)},
      ap (λ (k : ℕ). get_or src k 0) {x = s} {y = s + (i - d)},
    )

-- What `malloc` or `realloc` returned: nothing, or a block whose new cells hold any content.
abbrev pub Alloc : Type 0
Alloc = Option (ℕ → ℕ)

-- `n` cells of fresh memory, with the content that the allocator left in them.
unfoldable pub cells : (ℕ → ℕ) → ℕ → List ℕ
cells junk zero = []
cells junk (suc n) = junk n ∷ cells junk n

pub length-cells : (junk : ℕ → ℕ) (n : ℕ) → length (cells junk n) ≡ n
unfolding cells
length-cells junk zero = refl
length-cells junk (suc n) = ap suc (length-cells junk n)
