-- ===== src/Sack/Realloc.antt =====
-- sack_realloc and sack_insert_substring: the functions that copy bytes into what they allocate.
pub mod Copies
pub mod Later
pub mod Contents
use nifty.Base.{
  ℕ, zero, suc, ◌+◌, ◌-◌, Bool, true, false, not, ◌&&◌, ◌||◌, Option, none, some, List, [], ◌∷◌,
  ltb, leb, ◌==◌, if◌then◌else◌, ℤ, pos, negsuc,
}
use nifty.Sack.{Sack, Given, aligned, sack_alloc, sack_stralloc}

-- The bytes at all addresses.
abbrev pub Memory : Type 0
Memory = ℕ → ℕ

-- `memcpy` of `n` bytes from `src` to `dst`.
abbrev pub copied : Memory → (dst src n : ℕ) → Memory
copied mem dst src n j = if leb dst j && ltb j (dst + n) then mem (src + (j - dst)) else mem j

-- What a call leaves, with the memory.
pub record Moved : Type 0 where
  pub given : Given
  pub memory : Memory

-- The sack that `ptr` lies in, and the place of it in the chain.
unfoldable pub find_sack : List Sack → ℕ → ℕ → Option (ℕ × Sack)
find_sack [] i ptr = none
find_sack (sk ∷ sks) i ptr =
    let rest = find_sack sks (i + 1) ptr in
    if ltb ptr sk.data_at || ltb (sk.data_at + sk.free) ptr then rest else some (i, sk)

-- sk->free = free
abbrev pub set_free : List Sack → ℕ → ℕ → List Sack
set_free [] i free = []
set_free (sk ∷ sks) zero free = record sk { free = free } ∷ sks
set_free (sk ∷ sks) (suc i) free = sk ∷ set_free sks i free

-- The fields of the sack `sk`, at place `i`, as another call has left them.
abbrev pub sack_at : List Sack → ℕ → Sack → Sack
sack_at [] i sk = sk
sack_at (b ∷ bs) zero sk = b
sack_at (b ∷ bs) (suc i) sk = sack_at bs i sk

-- A new piece for what lies at `ptr`, aligned if `ptr` is.
unfoldable pub another : List Sack → ℕ → ℕ → List ℕ → Given
another chain ptr zero supply = record { result = none; chain = chain; supply = supply }
another chain ptr (suc n) supply =
    if ptr == aligned ptr
    then sack_alloc chain (pos (suc n)) supply
    else sack_stralloc chain (pos n) supply

abbrev pub with_copy : Memory → ℕ → ℕ → Option ℕ → Memory
with_copy mem ptr n none = mem
with_copy mem ptr n (some p) = copied mem p ptr n

-- The old region is given back only if there is a new one.
abbrev pub region_left : ℕ → ℕ → Option ℕ → List Sack → List Sack
region_left i offset none chain = chain
region_left i offset (some _) chain = set_free chain i offset

abbrev pub lesser : ℕ → ℕ → ℕ
lesser m n = if ltb m n then m else n

-- sack_realloc, in the sack that `ptr` lies in. `sk->last` and `sk->free` are read once more behind
-- the allocation, which may have taken the new piece from the same sack.
unfoldable pub realloc_in : List Sack → ℕ → ℕ → List ℕ → Memory → ℕ → Sack → Moved
realloc_in chain ptr n supply mem i sk =
    let offset = ptr - sk.data_at in
    let g = another chain ptr n supply in
    let later = sack_at g.chain i sk in
    if ltb sk.last offset
    then record { given = record { result = none; chain = chain; supply = supply }; memory = mem }
    else if ltb offset sk.last
    then (let old = lesser (later.last - offset) n in
        record { given = g; memory = with_copy mem ptr old g.result })
    else if leb (offset + n) sk.size
    then record {
      given = record { result = some ptr; chain = set_free chain i (offset + n); supply = supply };
      memory = mem;
    }
    else record {
      given = record g { chain = region_left i offset g.result g.chain };
      memory = with_copy mem ptr (later.free - offset) g.result;
    }

abbrev pub refused : List Sack → List ℕ → Memory → Moved
refused chain supply mem = record {
  given = record { result = none; chain = chain; supply = supply };
  memory = mem;
}

abbrev pub realloc_found : List Sack → ℕ → ℕ → List ℕ → Memory → Option (ℕ × Sack) → Moved
realloc_found chain ptr n supply mem none = refused chain supply mem
realloc_found chain ptr n supply mem (some (i, sk)) = realloc_in chain ptr n supply mem i sk

unfoldable pub sack_realloc : List Sack → Option ℕ → ℤ → List ℕ → Memory → Moved
sack_realloc chain none n supply mem = refused chain supply mem
sack_realloc chain (some ptr) (negsuc n) supply mem = refused chain supply mem
sack_realloc chain (some ptr) (pos n) supply mem =
    realloc_found chain ptr n supply mem (find_sack chain 0 ptr)

abbrev pub with_string : Memory → ℕ → ℕ → Option ℕ → Memory
with_string mem src n none = mem
with_string mem src n (some p) = λ j. if j == p + n then 0 else copied mem p src n j

-- sack_insert_substring, with arguments that are not NULL or negative.
unfoldable pub sack_insert_substring : List Sack → (string start n : ℕ) → List ℕ → Memory → Moved
sack_insert_substring chain string start n supply mem =
    let g = sack_stralloc chain (pos n) supply in
    record { given = g; memory = with_string mem (string + start) n g.result }
