-- ===== src/Sack/Tests.antt =====
-- Runs of the sack's allocators, and the theorems on them at concrete sacks.
use nifty.Base.{◌*◌, ◌%◌, ◌<◌, ◌≡◌, refl, inl, some, [], ◌∷◌, arith, pos}
use nifty.Sack.{
  Sack, sack_alloc, sack_stralloc, sack_create, sack_empty, sack_total, chain_loop, grow_loop,
}
use nifty.Sack.Places.{IsSack}
use nifty.Sack.Realloc.{find_sack, another, realloc_in, sack_realloc, sack_insert_substring}
use nifty.Sack.Realloc.Copies.{IsMoved}
use nifty.Sack.Realloc.Contents.{IsInserted, sack_realloc_lem, sack_insert_substring_lem}
use nifty.Sack.Gives.{Gives}
use nifty.Sack.Alloc.{sack_alloc_lem, sack_stralloc_lem}
use nifty.Sack.Serve.{IsExhausted, small_sack_exhausts, sack_alloc_overruns}

-- Ten of thirty-two bytes are in use.
abbrev begun : Sack
begun = record { data_at = 1004; size = 32; free = 10; last = 4 }

begun-IsSack : IsSack 4 begun
begun-IsSack = record {
  low_size = omega arith;
  high_size = omega arith;
  last_free = omega arith;
  free_size = omega arith;
  offset = refl;
}

begun-IsSack_any : IsSack 0 begun
begun-IsSack_any = record {
  low_size = omega arith;
  high_size = omega arith;
  last_free = omega arith;
  free_size = omega arith;
  offset = refl;
}

abbrev tiny : Sack
tiny = record { data_at = 1004; size = 3; free = 0; last = 0 }

sack_alloc_example :
    Gives 4 (λ p. p % 8 ≡ 0) 16 (begun ∷ []) (sack_alloc (begun ∷ []) (pos 16) (2004 ∷ []))
sack_alloc_example =
    sack_alloc_lem (begun ∷ []) 16 (2004 ∷ []) (begun-IsSack, tt) (refl, tt) (omega arith)

sack_stralloc_example :
    Gives 0 (λ p. Unit {0}) 31 (begun ∷ []) (sack_stralloc (begun ∷ []) (pos 30) (2004 ∷ []))
sack_stralloc_example =
    sack_stralloc_lem (begun ∷ []) 30 (2004 ∷ []) (begun-IsSack_any, tt) (refl, tt) (omega arith)

small_sack_exhausts_example : IsExhausted 3 (sack_alloc (tiny ∷ []) (pos 8) (2004 ∷ 3004 ∷ []))
small_sack_exhausts_example =
    small_sack_exhausts tiny 8 (2004 ∷ 3004 ∷ []) (omega arith) (omega arith) refl (omega arith)
      (omega arith) (refl, (refl, tt))

-- The largest sack, all in use.
abbrev full : Sack
full = record { data_at = 1004; size = 2147483646; free = 2147483646; last = 4 }

full-IsSack : IsSack 4 full
full-IsSack = record {
  low_size = omega arith;
  high_size = omega arith;
  last_free = omega arith;
  free_size = omega arith;
  offset = refl;
}

sack_alloc_overruns_example :
    ((sack_alloc (full ∷ []) (pos 2147483644) []).result ≡ some 2147484656)
    × (2147483650 < 2147483652)
sack_alloc_overruns_example =
    sack_alloc_overruns full [] 2147483644 [] full-IsSack (omega arith) (omega arith) (omega arith)

-- A piece of twelve bytes still fits; one of fourteen takes a second sack.
sack_alloc_run : (sack_alloc (begun ∷ []) (pos 12) (2004 ∷ [])).result ≡ some 1016
unfolding sack_alloc chain_loop
sack_alloc_run = refl

sack_alloc_next : (sack_alloc (begun ∷ []) (pos 40) (2004 ∷ [])).result ≡ some 2008
unfolding sack_alloc chain_loop grow_loop sack_create
sack_alloc_next = refl

sack_empty_run : sack_total (sack_empty (begun ∷ tiny ∷ [])) ≡ 0
unfolding sack_total sack_empty
sack_empty_run = refl

sack_create_run : (sack_create 4064 (1004 ∷ [])).1 ≡ []
unfolding sack_create
sack_create_run = refl

-- The last region of a sack, of six bytes, which moves behind the chain to have forty.
sack_realloc_example :
    IsMoved
      (begun ∷ [])
      (λ j. j * 3)
      1008
      40
      begun
      (sack_realloc (begun ∷ []) (some 1008) (pos 40) (2004 ∷ []) (λ j. j * 3))
unfolding sack_alloc chain_loop grow_loop sack_create find_sack another realloc_in sack_realloc
sack_realloc_example =
    sack_realloc_lem (begun ∷ []) 1008 40 (2004 ∷ []) (λ j. j * 3) 0 begun (begun-IsSack, tt)
      (refl, tt) refl (omega arith) ((inl (omega arith), tt), (tt, tt))

sack_insert_substring_example :
    IsInserted
      (begun ∷ [])
      (λ j. j * 3)
      3002
      5
      (sack_insert_substring (begun ∷ []) 3000 2 5 (2004 ∷ []) (λ j. j * 3))
unfolding sack_stralloc chain_loop sack_insert_substring
sack_insert_substring_example =
    sack_insert_substring_lem (begun ∷ []) 3000 2 5 (2004 ∷ []) (λ j. j * 3) (begun-IsSack, tt)
      (refl, tt) (omega arith) (tt, tt)
