-- ===== src/Sack.antt =====
-- src/nft_sack.c and include/nft_sack.h: a sack hands out pieces of a block of memory from its
-- front to its end, and chains further blocks behind it. The debugging marks are not modelled.
pub mod Places
pub mod Gives
pub mod Alloc
pub mod Serve
pub mod Realloc
mod Tests
use nifty.Base.{
  ℕ, zero, suc, ◌+◌, ◌-◌, ◌*◌, ◌/◌, ◌%◌, ◌^◌, Bool, true, false, Option, none, some, List, [], ◌∷◌,
  ltb, leb, if◌then◌else◌, ℤ, pos, negsuc,
}

-- `struct sack`, with the address of `data`. A chain is the list of its sacks.
pub record Sack : Type 0 where
  pub data_at : ℕ
  pub size : ℕ
  pub free : ℕ
  pub last : ℕ

-- SACK_MAX_SIZE
abbrev pub sack_max_size : ℕ
sack_max_size = 2147483647

-- ALIGNED
abbrev pub aligned : ℕ → ℕ
aligned p = (p + 7) / 8 * 8

-- offsetof(struct sack, data) % MALLOC_ALIGNMENT, where a pointer has eight bytes.
abbrev pub adjust : ℕ
adjust = 4

-- sack_create, of a size that is not negative. The supply holds the addresses that `malloc` gives to
-- `data`, one after another, until the memory is used up.
pub sack_create : ℕ → List ℕ → Option Sack × List ℕ
sack_create size [] = (none, [])
sack_create size (a ∷ supply) =
    if leb sack_max_size size
    then (none, a ∷ supply)
    else (some (record { data_at = a; size = size; free = 0; last = 0 }), supply)

abbrev pub empty_sack : Sack → Sack
empty_sack sk = record sk { free = 0; last = 0 }

pub sack_empty : List Sack → List Sack
sack_empty [] = []
sack_empty (sk ∷ sks) = empty_sack sk ∷ sack_empty sks

pub sack_total : List Sack → ℕ
sack_total [] = 0
sack_total (sk ∷ sks) = sk.free + sack_total sks

-- What a call on a chain returns and leaves: a pointer or NULL, the chain, and the supply.
pub record Given : Type 0 where
  pub result : Option ℕ
  pub chain : List Sack
  pub supply : List ℕ

abbrev pub behind : Sack → Given → Given
behind sk g = record g { chain = sk ∷ g.chain }

-- The loops of sack_alloc and sack_stralloc. They differ in the place of the piece in a sack, and in
-- the size of a sack that is put behind a full one.
module _ (place : Sack → ℕ) (next_size : Sack → ℕ) (size : ℕ) where
  -- Where the piece would end, an unsigned number that wraps.
  abbrev pub end_of : Sack → ℕ
  end_of sk = (place sk + size) % 2 ^ 32

  abbrev pub has_room : Sack → Bool
  has_room sk = leb (end_of sk) sk.size

  abbrev pub taken : Sack → Sack
  taken sk = record sk { free = end_of sk; last = place sk }

  abbrev pub address : Sack → ℕ
  address sk = sk.data_at + place sk

  -- Behind the last sack of the chain, which is too full.
  pub grow_loop : List ℕ → Sack → Given
  grow_loop [] sk = record { result = none; chain = []; supply = [] }
  grow_loop (a ∷ supply) sk = elim (sack_create (next_size sk) (a ∷ supply)).0 [
    | none ↦ record { result = none; chain = []; supply = a ∷ supply }
    | some new ↦
        let rest = behind new (grow_loop supply new) in
        if has_room new
        then record { result = some (address new); chain = taken new ∷ []; supply = supply }
        else rest
  ]

  -- The loop ends at the last sack, where there is no other to go on with.
  abbrev pub go_on : Sack → List Sack → List ℕ → Given → Given
  go_on sk [] supply rest = grow_loop supply sk
  go_on sk (_ ∷ _) supply rest = rest

  pub chain_loop : List Sack → List ℕ → Given
  chain_loop [] supply = record { result = none; chain = []; supply = supply }
  chain_loop (sk ∷ sks) supply =
      let rest = chain_loop sks supply in
      if has_room sk
      then record { result = some (address sk); chain = taken sk ∷ sks; supply = supply }
      else behind sk (go_on sk sks supply rest)

abbrev pub aligned_place : Sack → ℕ
aligned_place sk = aligned (sk.data_at + sk.free) - sk.data_at

-- `sk->size - adjust` is unsigned, so it wraps where the sack is smaller than that.
abbrev pub next_aligned : ℕ → Sack → ℕ
next_aligned size sk =
    if ltb ((sk.size + 2 ^ 32 - adjust) % 2 ^ 32) size then size + adjust else sk.size

-- sack_alloc
pub sack_alloc : List Sack → ℤ → List ℕ → Given
sack_alloc chain (negsuc n) supply = record { result = none; chain = chain; supply = supply }
sack_alloc chain (pos zero) supply = record { result = none; chain = chain; supply = supply }
sack_alloc chain (pos (suc n)) supply =
    chain_loop aligned_place (next_aligned (suc n)) (suc n) chain supply

abbrev pub next_string : ℕ → Sack → ℕ
next_string size sk = if ltb sk.size size then size else sk.size

-- sack_stralloc
pub sack_stralloc : List Sack → ℤ → List ℕ → Given
sack_stralloc chain (negsuc n) supply = record { result = none; chain = chain; supply = supply }
sack_stralloc chain (pos n) supply =
    chain_loop (λ sk. sk.free) (next_string (n + 1)) (n + 1) chain supply
