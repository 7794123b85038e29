-- ===== src/Sack/Alloc.antt =====
-- sack_alloc and sack_stralloc: the pieces that they hand out.
use nifty.Base.{
  ℕ, zero, suc, ◌+◌, ◌-◌, ◌%◌, ◌^◌, ◌≤◌, ◌<◌, ◌≡◌, List, ltb, if◌then◌else◌, arith, pos,
}
use nifty.Sack.{
  Sack, sack_max_size, aligned, adjust, aligned_place, next_aligned, next_string, sack_alloc,
  sack_stralloc,
}
use nifty.Sack.Places.{IsChain, IsSupply, le-aligned, aligned_lt}
use nifty.Sack.Gives.{Gives, IsPlacing, none-Gives, chain_loop-Gives}

pub next_fits :
    (a n size : ℕ)
    → 4 ≤ size
    → size < sack_max_size
    → a % 8 ≡ 4
    → aligned (a + 0) - a + n
      ≤ (if ltb ((size + 2 ^ 32 - adjust) % 2 ^ 32) n then n + adjust else size)
next_fits a n size le lt m =
    let w : (size + 2 ^ 32 - adjust) % 2 ^ 32 ≡ size - 4 = omega arith in
    let p : aligned (a + 0) - a ≡ 4 = omega arith in rw (p, w) (ground arith)

-- sack_alloc, where the sacks are not smaller than the adjustment: it hands out aligned pieces.
pub aligned-IsPlacing :
    (n : ℕ) → n + 4 < sack_max_size → IsPlacing 4 (λ p. p % 8 ≡ 0) aligned_place (next_aligned n) n
aligned-IsPlacing n small = record {
  free-le-place = λ sk v. omega (arith, le-aligned (sk.data_at + sk.free));
  right = λ sk v. omega arith;
  whole = λ sk v. omega (arith, small, aligned_lt (sk.data_at + sk.free), v.free_size, v.high_size);
  low-le-next_size = λ sk v. ground (arith, v.low_size);
  next_size-fits = λ sk a v m. next_fits a n sk.size v.low_size v.high_size m;
}

pub string-IsPlacing :
    (n : ℕ) → n ≤ sack_max_size → IsPlacing 0 (λ p. Unit {0}) (λ sk. sk.free) (next_string n) n
string-IsPlacing n small = record {
  free-le-place = λ sk v. omega arith;
  right = λ sk v. tt;
  whole = λ sk v. omega (arith, small, v.free_size, v.high_size);
  low-le-next_size = λ sk v. omega arith;
  next_size-fits = λ sk a v m. ground arith;
}

-- sack_alloc of `n` bytes, where `n + 4` is below the largest size, keeps a chain valid, of sacks
-- that are not smaller than the adjustment, and every piece that was handed out. Where it returns a pointer, it is aligned, and the bytes behind it lie in a
-- sack and, as `malloc` keeps the sacks apart, meet no other piece.
pub sack_alloc_lem :
    (chain : List Sack) (n : ℕ) (supply : List ℕ)
    → IsChain 4 chain
    → IsSupply supply
    → n + 4 < sack_max_size
    → Gives 4 (λ p. p % 8 ≡ 0) n chain (sack_alloc chain (pos n) supply)
unfolding sack_alloc
sack_alloc_lem chain zero supply v s small =
    none-Gives 4 (λ p. p % 8 ≡ 0) aligned_place (next_aligned 0) 0 (aligned-IsPlacing 0 small) chain
      supply v s
sack_alloc_lem chain (suc n) supply v s small =
    chain_loop-Gives 4 (λ p. p % 8 ≡ 0) aligned_place (next_aligned (suc n)) (suc n)
      (aligned-IsPlacing (suc n) small) chain supply v s

-- sack_stralloc of `n` characters, less than the largest size, keeps a chain valid, and every piece that was handed out. Where it returns a
-- pointer, the string of `n` characters and its null lie in a sack and, as `malloc` keeps the sacks
-- apart, meet no other piece.
pub sack_stralloc_lem :
    (chain : List Sack) (n : ℕ) (supply : List ℕ)
    → IsChain 0 chain
    → IsSupply supply
    → n < sack_max_size
    → Gives 0 (λ p. Unit {0}) (n + 1) chain (sack_stralloc chain (pos n) supply)
unfolding sack_stralloc
sack_stralloc_lem chain n supply v s small =
    chain_loop-Gives 0 (λ p. Unit {0}) (λ sk. sk.free) (next_string (n + 1)) (n + 1)
      (string-IsPlacing (n + 1) (omega (arith, small))) chain supply v s
