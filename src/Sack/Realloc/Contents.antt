-- ===== src/Sack/Realloc/Contents.antt =====
-- What the bytes are after sack_realloc and sack_insert_substring.
use mathlib.Core.Path.{subst}
use nifty.Base.{
  ℕ, zero, suc, ◌+◌, ◌-◌, ◌≤◌, ◌<◌, ◌≡◌, inl, inr, refl, sym, ap, false, Option, none, some, List,
  [], ◌∷◌, ltb, leb, ◌==◌, ◌||◌, arith, pos,
}
use nifty.Sack.{Sack, Given, sack_max_size, aligned, sack_stralloc}
use nifty.Sack.Places.{IsChain, IsSupply, AreApart}
use nifty.Sack.Gives.{Each}
use nifty.Sack.Alloc.{sack_alloc_lem, sack_stralloc_lem}
use nifty.Sack.Realloc.{
  Memory, lesser, with_string, Moved, find_sack, another, with_copy, region_left, realloc_in,
  realloc_found, sack_at, sack_realloc, sack_insert_substring,
}
use nifty.Sack.Realloc.Copies.{
  IsKept, HasCopy, IsClear, lesser-le, lesser-le_left, copied-HasCopy, with_copy-IsKept,
  with_copy-HasCopy, region_left-AreApart, IsClear-of_new, IsChain-weaken, extent, IsMoved,
  if_cases, lesser_mono,
}
use nifty.Sack.Realloc.Later.{IsAt, IsLater, another-IsLater, find_sack-IsAt}

-- A sack whose `last` has moved, where its last piece is not the one to move.
last_later :
    (sk later : Sack) (n offset : ℕ)
    → sk.last ≤ sk.free
    → IsLater n sk later
    → sk.last - offset ≤ later.last - offset
last_later sk later n offset h (inl l) = omega (arith, l.0)
last_later sk later n offset h (inr l) = omega (arith, h, l.0)

-- A sack that has no room for its last piece to grow has none for a new one either.
free_same :
    (sk later : Sack) (n offset : ℕ)
    → offset ≤ sk.free
    → sk.size < offset + n
    → IsLater n sk later
    → later.free ≡ sk.free
free_same sk later n offset h full (inl l) = l.1
free_same sk later n offset h full (inr l) = absurd (omega (arith, h, full, l.0, l.1))

module _ (chain : List Sack) (supply : List ℕ) (v : IsChain 4 chain) (s : IsSupply supply) where
  string-IsClear :
      (n : ℕ)
      → n < sack_max_size
      → AreApart (sack_stralloc chain (pos n) supply).chain
      → Each (IsClear chain (n + 1)) (sack_stralloc chain (pos n) supply).result
  string-IsClear n small apart =
      IsClear-of_new _ _ chain _ _
        (sack_stralloc_lem chain n supply (IsChain-weaken chain v) s small).piece apart

  another-IsClear :
      (ptr n : ℕ)
      → n + 4 < sack_max_size
      → AreApart (another chain ptr n supply).chain
      → Each (IsClear chain n) (another chain ptr n supply).result
  unfolding another
  another-IsClear ptr zero small apart = tt
  another-IsClear ptr (suc n) small apart =
      if_cases (λ (g : Given). AreApart g.chain → Each (IsClear chain (suc n)) g.result)
        (ptr == aligned ptr)
        (λ _ w.
          IsClear-of_new _ _ chain _ _ (sack_alloc_lem chain (suc n) supply v s small).piece w)
        (λ _ w.
          subst (λ (k : ℕ). Each (IsClear chain k) (sack_stralloc chain (pos n) supply).result)
            (omega arith) (string-IsClear n (omega (arith, small)) w))
        apart

  -- The outcomes of sack_realloc: NULL, a copy of `k` bytes, and no move.
  refused-IsMoved :
      (mem : Memory) (ptr n : ℕ) (sk : Sack) (o : Given)
      → o.result ≡ none
      → IsMoved chain mem ptr n sk (record { given = o; memory = mem })
  refused-IsMoved mem ptr n sk o e = (λ q m j held lt. refl, rw e tt)

  copied-IsMoved :
      (mem : Memory) (ptr n k i offset : ℕ) (sk : Sack)
      → n + 4 < sack_max_size
      → k ≤ n
      → lesser (extent sk ptr) n ≤ k
      → AreApart (another chain ptr n supply).chain
      → (left : List Sack)
      → IsMoved chain mem ptr n sk (record {
        given = record (another chain ptr n supply) { chain = left };
        memory = with_copy mem ptr k (another chain ptr n supply).result;
      })
  copied-IsMoved mem ptr n k i offset sk small le size apart left =
      let r = (another chain ptr n supply).result in
      (
        with_copy-IsKept chain mem ptr n k r (another-IsClear ptr n small apart) le,
        with_copy-HasCopy mem ptr k (lesser (extent sk ptr) n) r size,
      )

  realloc_in-IsMoved :
      (mem : Memory) (ptr n i : ℕ) (sk : Sack)
      → sk.last ≤ sk.free
      → sk.free ≤ sk.size
      → n + 4 < sack_max_size
      → IsAt chain i sk
      → AreApart (realloc_in chain ptr n supply mem i sk).given.chain
      → IsMoved chain mem ptr n sk (realloc_in chain ptr n supply mem i sk)
  unfolding realloc_in
  realloc_in-IsMoved mem ptr n i sk last_free le small place =
      let P = λ (o : Moved). AreApart o.given.chain → IsMoved chain mem ptr n sk o in
      let offset = ptr - sk.data_at in
      let later = sack_at (another chain ptr n supply).chain i sk in
      let is_later = another-IsLater chain ptr n supply i sk v small place in
      if_cases P (ltb sk.last offset)
        (λ e w.
          refused-IsMoved mem ptr n sk (record { result = none; chain = chain; supply = supply })
            refl)
        λ e₁.
          if_cases P (ltb offset sk.last)
            (λ e₂ w.
              copied-IsMoved mem ptr n (lesser (later.last - offset) n) i offset sk small
                (lesser-le (later.last - offset) n)
                (rw e₂ (
                  lesser_mono (sk.last - offset) (later.last - offset) n
                    (last_later sk later n offset last_free is_later)))
                w (another chain ptr n supply).chain)
            λ e₂.
              if_cases P (leb (offset + n) sk.size) (λ e₃ w. (λ q m j held lt. refl, λ j lt. refl))
                λ e₃ w.
                  copied-IsMoved mem ptr n (later.free - offset) i offset sk small
                    (ground (
                      arith,
                      e₃,
                      free_same sk later n offset (ground (arith, e₁, e₂, last_free))
                          (ground (arith, e₃)) is_later,
                    ))
                    (rw
                      (
                        e₂,
                        free_same sk later n offset (ground (arith, e₁, e₂, last_free))
                            (ground (arith, e₃)) is_later,
                      )
                      (lesser-le_left (sk.free - offset) n))
                    (region_left-AreApart i offset _ _ w)
                    (region_left i offset (another chain ptr n supply).result
                      (another chain ptr n supply).chain)

abbrev sack_of : Sack → Option (ℕ × Sack) → Sack
sack_of b none = b
sack_of b (some (i, sk)) = sk

find_sack-free :
    (sks : List Sack) (k ptr i : ℕ) (sk : Sack)
    → IsChain 4 sks
    → find_sack sks k ptr ≡ some (i, sk)
    → (sk.last ≤ sk.free) × (sk.free ≤ sk.size)
unfolding find_sack
find_sack-free [] k ptr i sk v = λ e. absurd (cc e)
find_sack-free (b ∷ bs) k ptr i sk v =
    if_cases
      (λ (o : Option (ℕ × Sack)). o ≡ some (i, sk) → (sk.last ≤ sk.free) × (sk.free ≤ sk.size))
      (ltb ptr b.data_at || ltb (b.data_at + b.free) ptr)
      (λ _ e. find_sack-free bs (k + 1) ptr i sk v.1 e)
      (λ _ e.
        let free = ap (λ (o : Option (ℕ × Sack)). (sack_of b o).free) e in
        let size = ap (λ (o : Option (ℕ × Sack)). (sack_of b o).size) e in
        let last = ap (λ (o : Option (ℕ × Sack)). (sack_of b o).last) e in
        (omega (arith, v.0.last_free, last, free), omega (arith, v.0.free_size, free, size)))

-- In a valid chain, sack_realloc of a region to a size that, with four bytes more, is below the
-- largest of a sack, changes no byte that was handed out, and the piece that
-- it returns, in place or elsewhere, holds the bytes of the region, as many as both have, where
-- `malloc` keeps the sacks apart.
pub sack_realloc_lem :
    (chain : List Sack) (ptr n : ℕ) (supply : List ℕ) (mem : Memory) (i : ℕ) (sk : Sack)
    → IsChain 4 chain
    → IsSupply supply
    → find_sack chain 0 ptr ≡ some (i, sk)
    → n + 4 < sack_max_size
    → AreApart (sack_realloc chain (some ptr) (pos n) supply mem).given.chain
    → IsMoved chain mem ptr n sk (sack_realloc chain (some ptr) (pos n) supply mem)
unfolding sack_realloc
sack_realloc_lem chain ptr n supply mem i sk v s e small apart =
    let runs : sack_realloc chain (some ptr) (pos n) supply mem
        ≡ realloc_in chain ptr n supply mem i sk =
      ap (realloc_found chain ptr n supply mem) e in
    subst (λ (o : Moved). AreApart o.given.chain → IsMoved chain mem ptr n sk o) (sym runs)
      (realloc_in-IsMoved chain supply v s mem ptr n i sk (find_sack-free chain 0 ptr i sk v e).0
        (find_sack-free chain 0 ptr i sk v e).1 small (find_sack-IsAt chain ptr i sk e))
      apart

-- The `n` characters from `src` on, with a null behind them.
abbrev pub IsString : Memory → Memory → (src n p : ℕ) → Type 0
IsString mem mem' src n p = HasCopy mem mem' src n p × (mem' (p + n) ≡ 0)

abbrev pub IsInserted : List Sack → Memory → (src n : ℕ) → Moved → Type 0
IsInserted chain mem src n o =
    IsKept chain mem o.memory × Each (IsString mem o.memory src n) o.given.result

-- In a valid chain, sack_insert_substring of less characters than the largest sack has changes no byte that was handed out, and the string that
-- it returns is the `n` characters from `start` on, with a null behind them, where `malloc` keeps
-- the sacks apart.
pub sack_insert_substring_lem :
    (chain : List Sack) (string start n : ℕ) (supply : List ℕ) (mem : Memory)
    → IsChain 4 chain
    → IsSupply supply
    → n < sack_max_size
    → AreApart (sack_insert_substring chain string start n supply mem).given.chain
    → IsInserted chain mem
        (string + start)
        n
        (sack_insert_substring chain string start n supply mem)
unfolding sack_insert_substring
sack_insert_substring_lem chain string start n supply mem v s small apart =
    inserted (sack_stralloc chain (pos n) supply).result
      (string-IsClear chain supply v s n small apart)
  where
    inserted :
        (r : Option ℕ)
        → Each (IsClear chain (n + 1)) r
        → IsKept chain mem (with_string mem (string + start) n r)
          × Each (IsString mem (with_string mem (string + start) n r) (string + start) n) r
    inserted none clear = ((λ q m j held lt. refl), tt)
    inserted (some p) clear = (
      (λ q m j held lt. ground (arith, clear q m held)),
      (
        (λ j lt.
            let before : (p + j == p + n) ≡ false = ground arith in
            rw before (copied-HasCopy mem p (string + start) n j lt)),
        ground arith,
      ),
    )
