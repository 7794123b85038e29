-- ===== src/Sack/Realloc/Copies.antt =====
-- The copies that sack_realloc and sack_insert_substring make, and what they leave as it was.
use nifty.Base.{
  ℕ, zero, suc, ◌+◌, ◌-◌, ◌≤◌, ◌<◌, ◌≡◌, refl, Bool, true, false, Option, none, some, List, [], ◌∷◌,
  ltb, leb, ◌&&◌, if◌then◌else◌, arith,
}
use nifty.Sack.{Sack}
use nifty.Sack.Places.{IsChain, IsHeld, IsBeside, IsAway, AreApart}
use nifty.Sack.Gives.{Each, IsNew}
use nifty.Sack.Realloc.{Memory, copied, lesser, Moved, set_free, with_copy, region_left}

-- No byte that was handed out has changed.
abbrev pub IsKept : List Sack → Memory → Memory → Type 0
IsKept chain mem mem' = (q m j : ℕ) → IsHeld chain q m → j < m → mem' (q + j) ≡ mem (q + j)

-- The piece holds the first `n` bytes from `src` on.
abbrev pub HasCopy : Memory → Memory → (src n p : ℕ) → Type 0
HasCopy mem mem' src n p = (j : ℕ) → j < n → mem' (p + j) ≡ mem (src + j)

-- A piece of `n` bytes that meets none that is held.
abbrev pub IsClear : List Sack → ℕ → ℕ → Type 0
IsClear chain n p = (q m : ℕ) → IsHeld chain q m → IsBeside p n q m

pub lesser-le : (m n : ℕ) → lesser m n ≤ n
lesser-le m n = ground arith

pub lesser-le_left : (m n : ℕ) → lesser m n ≤ m
lesser-le_left m n = ground arith

pub lesser_mono : (k m n : ℕ) → k ≤ m → lesser k n ≤ lesser m n
lesser_mono k m n le = ground arith

pub copied-HasCopy : (mem : Memory) (p src n : ℕ) → HasCopy mem (copied mem p src n) src n p
copied-HasCopy mem p src n j lt =
    let there : (leb p (p + j) && ltb (p + j) (p + n)) ≡ true = ground arith in
    let same : p + j - p ≡ j = omega arith in rw (there, same) refl

copied-IsKept :
    (chain : List Sack) (mem : Memory) (p src n k : ℕ)
    → IsClear chain n p
    → k ≤ n
    → IsKept chain mem (copied mem p src k)
copied-IsKept chain mem p src n k clear le q m j held lt = ground (arith, clear q m held)

set_free-IsAway :
    (a : Sack) (sks : List Sack) (i free : ℕ) → IsAway a (set_free sks i free) → IsAway a sks
set_free-IsAway a [] i free w = w
set_free-IsAway a (b ∷ bs) zero free w = w
set_free-IsAway a (b ∷ bs) (suc i) free w = (w.0, set_free-IsAway a bs i free w.1)

set_free-AreApart : (sks : List Sack) (i free : ℕ) → AreApart (set_free sks i free) → AreApart sks
set_free-AreApart [] i free w = w
set_free-AreApart (b ∷ bs) zero free w = w
set_free-AreApart (b ∷ bs) (suc i) free w =
    (set_free-IsAway b bs i free w.0, set_free-AreApart bs i free w.1)

pub with_copy-IsKept :
    (chain : List Sack) (mem : Memory) (src n k : ℕ) (r : Option ℕ)
    → Each (IsClear chain n) r
    → k ≤ n
    → IsKept chain mem (with_copy mem src k r)
with_copy-IsKept chain mem src n k none clear le = λ q m j held lt. refl
with_copy-IsKept chain mem src n k (some p) clear le = copied-IsKept chain mem p src n k clear le

pub with_copy-HasCopy :
    (mem : Memory) (src k n : ℕ) (r : Option ℕ)
    → n ≤ k
    → Each (HasCopy mem (with_copy mem src k r) src n) r
with_copy-HasCopy mem src k n none le = tt
with_copy-HasCopy mem src k n (some p) le =
    λ j lt. copied-HasCopy mem p src k j (omega (arith, lt, le))

pub region_left-AreApart :
    (i offset : ℕ) (r : Option ℕ) (sks : List Sack)
    → AreApart (region_left i offset r sks)
    → AreApart sks
region_left-AreApart i offset none sks w = w
region_left-AreApart i offset (some p) sks w = set_free-AreApart sks i offset w

pub IsClear-of_new :
    (R : ℕ → Type 0) (n : ℕ) (chain after : List Sack) (r : Option ℕ)
    → Each (IsNew R n chain after) r
    → AreApart after
    → Each (IsClear chain n) r
IsClear-of_new R n chain after none e apart = tt
IsClear-of_new R n chain after (some p) e apart = e.fresh apart

pub IsChain-weaken : (sks : List Sack) → IsChain 4 sks → IsChain 0 sks
IsChain-weaken [] v = tt
IsChain-weaken (sk ∷ sks) v = (
  record {
    low_size = omega arith;
    high_size = v.0.high_size;
    last_free = v.0.last_free;
    free_size = v.0.free_size;
    offset = v.0.offset;
  },
  IsChain-weaken sks v.1,
)

-- How many bytes of the region at `ptr` are known to the code.
abbrev pub extent : Sack → ℕ → ℕ
extent sk ptr =
    let offset = ptr - sk.data_at in
    if ltb offset sk.last then sk.last - offset else sk.free - offset

-- No byte changes that was handed out, and what is returned holds what was at `ptr`.
abbrev pub IsMoved : List Sack → Memory → (ptr n : ℕ) → Sack → Moved → Type 0
IsMoved chain mem ptr n sk o =
    IsKept chain mem o.memory
    × Each (HasCopy mem o.memory ptr (lesser (extent sk ptr) n)) o.given.result

pub if_cases :
    {A : Type 0} (P : A → Type 0) (b : Bool) {x y : A}
    → (b ≡ true → P x)
    → (b ≡ false → P y)
    → P (if b then x else y)
if_cases P true f g = f refl
if_cases P false f g = g refl
