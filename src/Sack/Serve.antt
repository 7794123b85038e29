-- ===== src/Sack/Serve.antt =====
-- When sack_alloc returns a pointer, and when it never does.
use nifty.Base.{
  ℕ, zero, suc, ◌+◌, ◌-◌, ◌%◌, ◌^◌, ◌<◌, ◌≤◌, ◌≡◌, refl, ap, Bool, true, false, Option, none, some,
  List, [], ◌∷◌, ltb, leb, if◌then◌else◌, arith, pos, length,
}
use nifty.Sack.{
  Sack, Given, sack_create, sack_max_size, aligned, adjust, grow_loop, chain_loop, aligned_place,
  next_aligned, sack_alloc,
}
use nifty.Sack.Places.{IsSack, IsSupply, aligned_lt}
use nifty.Sack.Gives.{leb-true}

abbrev pub is_given : Option ℕ → Bool
is_given none = false
is_given (some p) = true

leb-false : (m n : ℕ) → n < m → leb m n ≡ false
leb-false m n h = ground arith

-- A call that used up the supply, and returned NULL.
pub record IsExhausted (sacks : ℕ) (g : Given) : Type 0 where
  pub result : g.result ≡ none
  pub supply : g.supply ≡ []
  pub chain : length g.chain ≡ sacks

next_small :
    (size n : ℕ)
    → size < 4
    → n < 2147483648
    → (if ltb ((size + 2 ^ 32 - adjust) % 2 ^ 32) n then n + adjust else size) ≡ size
next_small size n lt max =
    let w : (size + 2 ^ 32 - adjust) % 2 ^ 32 ≡ size + 4294967292 = omega arith in
    rw w (ground arith)

unfit :
    (a n size : ℕ)
    → size < 4
    → a % 8 ≡ 4
    → n < 2147483648
    → leb ((aligned (a + 0) - a + n) % 2 ^ 32) size ≡ false
unfit a n size lt m max = leb-false _ _ (omega arith)

grow_loop-IsExhausted :
    (sk : Sack) (n : ℕ) (supply : List ℕ)
    → sk.size < 4
    → n < 2147483648
    → IsSupply supply
    → IsExhausted (length supply) (grow_loop aligned_place (next_aligned n) n supply sk)
unfolding grow_loop sack_create
grow_loop-IsExhausted sk n [] lt max s = record { result = refl; supply = refl; chain = refl }
grow_loop-IsExhausted sk n (a ∷ supply) lt max s =
    let new : Sack = record { data_at = a; size = sk.size; free = 0; last = 0 } in
    let rest = grow_loop-IsExhausted new n supply lt max s.1 in
    let allowed : leb sack_max_size sk.size ≡ false = leb-false _ _ (omega arith) in
    rw (grow_loop, next_small sk.size n lt max, allowed, unfit a n sk.size lt s.0 max)
      (record { result = rest.result; supply = rest.supply; chain = ap suc rest.chain })

-- A sack that is smaller than the adjustment, in which no more is used than it has, is useless to
-- sack_alloc: `sk->size - adjust` wraps, so
-- each new sack is as small, until `malloc` has given all that it had, and NULL is returned.
pub small_sack_exhausts :
    (sk : Sack) (n : ℕ) (supply : List ℕ)
    → sk.size < 4
    → sk.free ≤ sk.size
    → sk.data_at % 8 ≡ 4
    → 0 < n
    → n < 2147483648
    → IsSupply supply
    → IsExhausted (suc (length supply)) (sack_alloc (sk ∷ []) (pos n) supply)
unfolding sack_alloc chain_loop
small_sack_exhausts sk zero supply lt used m more max s = absurd (omega (arith, more))
small_sack_exhausts sk (suc n) supply lt used m more max s =
    let rest = grow_loop-IsExhausted sk (suc n) supply lt max s in
    let full : leb ((aligned_place sk + suc n) % 2 ^ 32) sk.size ≡ false =
      leb-false _ _ (omega (arith, used, lt, m, max)) in
    rw full (record { result = rest.result; supply = rest.supply; chain = ap suc rest.chain })

-- In a sack with no more in use than it has, and of any size that is allowed, sack_alloc of as many
-- bytes as make the end of the piece wrap returns a pointer behind the end of the sack's memory.
pub sack_alloc_overruns :
    (sk : Sack) (sks : List Sack) (n : ℕ) (supply : List ℕ)
    → IsSack 4 sk
    → 0 < n
    → n ≤ sack_max_size
    → 2 ^ 32 ≤ aligned_place sk + n
    → let g = sack_alloc (sk ∷ sks) (pos n) supply in
      (g.result ≡ some (sk.data_at + aligned_place sk)) × (sk.size + 4 < aligned_place sk)
unfolding sack_alloc chain_loop
sack_alloc_overruns sk sks zero supply v more max wraps = absurd (omega (arith, more))
sack_alloc_overruns sk sks (suc n) supply v more max wraps =
    let bound = aligned_lt (sk.data_at + sk.free) in
    let room : leb ((aligned_place sk + suc n) % 2 ^ 32) sk.size ≡ true =
      leb-true _ _ (omega (arith, v.high_size, v.free_size, v.offset, wraps, max, bound)) in
    (rw room refl, omega (arith, v.high_size, v.free_size, v.offset, wraps, max, bound))
