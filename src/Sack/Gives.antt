-- ===== src/Sack/Gives.antt =====
-- What the loops of sack_alloc and sack_stralloc hand out, for any place in a sack.
use native.Mathlib.Nat.{mod-eq_of_lt, mod-le}
use nifty.Base.{
  ℕ, ◌+◌, ◌%◌, ◌^◌, ap, ◌≤◌, ◌<◌, ◌≡◌, inl, inr, true, Option, none, some, List, [], ◌∷◌, leb,
  arith, Bool-cases,
}
use nifty.Sack.{
  Sack, Given, sack_create, sack_max_size, behind, end_of, has_room, taken, address, grow_loop,
  go_on, chain_loop,
}
use nifty.Sack.Places.{IsSack, IsChain, IsSupply, IsIn, IsHeld, IsBeside, AreApart, IsBeside-IsHeld}

abbrev pub Each : (ℕ → Type 0) → Option ℕ → Type 0
Each P none = Unit {0}
Each P (some p) = P p

-- A piece that `after` holds, and that meets no piece of `before`.
pub record IsNew (R : ℕ → Type 0) (n : ℕ) (before after : List Sack) (p : ℕ) : Type 0 where
  pub right : R p
  pub held : IsHeld after p n
  pub fresh : AreApart after → (q m : ℕ) → IsHeld before q m → IsBeside p n q m

-- What a call leaves: a valid chain that still holds every piece, and a pointer, if it is one, to a
-- piece of `n` bytes that meets no other, where `malloc` keeps its blocks apart.
pub record Gives (low : ℕ) (R : ℕ → Type 0) (n : ℕ) (chain : List Sack) (g : Given) : Type 0 where
  pub valid : IsChain low g.chain
  pub supply : IsSupply g.supply
  pub kept : (q m : ℕ) → IsHeld chain q m → IsHeld g.chain q m
  pub piece : Each (IsNew R n chain g.chain) g.result

-- What the two functions have in common.
pub record IsPlacing (low : ℕ) (R : ℕ → Type 0) (place next_size : Sack → ℕ) (n : ℕ) : Type 0 where
  pub free-le-place : (sk : Sack) → IsSack low sk → sk.free ≤ place sk
  pub right : (sk : Sack) → IsSack low sk → R (sk.data_at + place sk)
  pub whole : (sk : Sack) → IsSack low sk → place sk + n < 2 ^ 32
  pub low-le-next_size : (sk : Sack) → IsSack low sk → low ≤ next_size sk
  pub next_size-fits :
      (sk : Sack) (a : ℕ)
      → IsSack low sk
      → a % 8 ≡ 4
      → place (record { data_at = a; size = next_size sk; free = 0; last = 0 }) + n ≤ next_size sk

pub leb-true : (m n : ℕ) → m ≤ n → leb m n ≡ true
leb-true m n h = ground arith

swap : (p n q m : ℕ) → IsBeside q m p n → IsBeside p n q m
swap p n q m (inl h) = inr h
swap p n q m (inr h) = inl h

module _ (low : ℕ) (R : ℕ → Type 0) (place next_size : Sack → ℕ) (n : ℕ)
    (at : IsPlacing low R place next_size n) where
  -- The end of a piece does not wrap.
  pub end_whole : (sk : Sack) → IsSack low sk → end_of place next_size n sk ≡ place sk + n
  end_whole sk v = mod-eq_of_lt (at.whole sk v)

  pub has_room-eq :
      (sk : Sack) → IsSack low sk → has_room place next_size n sk ≡ leb (place sk + n) sk.size
  has_room-eq sk v = ap (λ (e : ℕ). leb e sk.size) (end_whole sk v)

  abbrev new : ℕ → Sack → Sack
  new a sk = record { data_at = a; size = next_size sk; free = 0; last = 0 }

  new-IsSack :
      (a : ℕ) (sk : Sack)
      → IsSack low sk
      → a % 8 ≡ 4
      → next_size sk < sack_max_size
      → IsSack low (new a sk)
  new-IsSack a sk v m lt = record {
    low_size = at.low-le-next_size sk v;
    high_size = lt;
    last_free = omega arith;
    free_size = omega arith;
    offset = m;
  }

  taken-IsSack :
      (sk : Sack) → IsSack low sk → place sk + n ≤ sk.size → IsSack low (taken place next_size n sk)
  taken-IsSack sk v le = record {
    low_size = v.low_size;
    high_size = v.high_size;
    last_free = omega (arith, end_whole sk v);
    free_size = omega (arith, end_whole sk v, le);
    offset = v.offset;
  }

  -- The piece lies in the sack that hands it out.
  taken-IsIn :
      (sk : Sack)
      → IsSack low sk
      → IsIn (taken place next_size n sk) (address place next_size n sk) n
  taken-IsIn sk v = (omega arith, omega (arith, end_whole sk v))

  pub none-Gives :
      (chain : List Sack) (supply : List ℕ)
      → IsChain low chain
      → IsSupply supply
      → Gives low R n chain (record { result = none; chain = chain; supply = supply })
  none-Gives chain supply v s = record { valid = v; supply = s; kept = λ q m h. h; piece = tt }

  -- The head of the chain has room.
  taken-Gives :
      (sk : Sack) (sks : List Sack) (supply : List ℕ)
      → IsChain low (sk ∷ sks)
      → IsSupply supply
      → place sk + n ≤ sk.size
      → Gives low R n (sk ∷ sks) (record {
        result = some (address place next_size n sk);
        chain = taken place next_size n sk ∷ sks;
        supply = supply;
      })
  taken-Gives sk sks supply v s le =
      let room = at.free-le-place sk v.0 in
      record {
        valid = (taken-IsSack sk v.0 le, v.1);
        supply = s;
        kept = λ q m h. elim h [
          | inl i ↦ inl (i.0, omega (arith, i.1, room, end_whole sk v.0))
          | inr h' ↦ inr h'
        ];
        piece = record {
          right = at.right sk v.0;
          held = inl (taken-IsIn sk v.0);
          fresh = λ apart q m h. elim h [
            | inl i ↦ inr (omega (arith, i.1, room))
            | inr h' ↦
                IsBeside-IsHeld low (taken place next_size n sk) sks (address place next_size n sk)
                  n q m v.1 apart.0 (omega arith) (omega (arith, le)) h'
          ];
        };
      }

  -- The head of the chain is passed over.
  behind-Gives :
      (sk : Sack) (sks : List Sack) (g : Given)
      → IsSack low sk
      → Gives low R n sks g
      → Gives low R n (sk ∷ sks) (behind sk g)
  behind-Gives sk sks g v o = record {
    valid = (v, o.valid);
    supply = o.supply;
    kept = λ q m h. elim h [ inl i ↦ inl i | inr h' ↦ inr (o.kept q m h') ];
    piece = pass g.result o.piece;
  }
    where
      pass :
          (r : Option ℕ)
          → Each (IsNew R n sks g.chain) r
          → Each (IsNew R n (sk ∷ sks) (sk ∷ g.chain)) r
      pass none e = tt
      pass (some p) e = record {
        right = e.right;
        held = inr e.held;
        fresh = λ apart q m h. elim h [
          | inl i ↦ swap p n q m (
              IsBeside-IsHeld low sk g.chain q m p n o.valid apart.0 i.0
                (omega (arith, i.1, v.free_size)) e.held)
          | inr h' ↦ e.fresh apart.1 q m h'
        ];
      }

  of_new : (sk : Sack) (g : Given) → Gives low R n (sk ∷ []) g → Gives low R n [] g
  of_new sk g o = record {
    valid = o.valid;
    supply = o.supply;
    kept = λ q m h. absurd h;
    piece = pass g.result o.piece;
  }
    where
      pass : (r : Option ℕ) → Each (IsNew R n (sk ∷ []) g.chain) r → Each (IsNew R n [] g.chain) r
      pass none e = tt
      pass (some p) e = record { right = e.right; held = e.held; fresh = λ apart q m h. absurd h }

  -- A new sack has room, and is small enough for the end not to wrap, if it can be made.
  end_below :
      (a : ℕ) (sk : Sack)
      → IsSack low sk
      → a % 8 ≡ 4
      → end_of place next_size n (new a sk) ≤ next_size sk
  end_below a sk v m =
      omega (arith, mod-le (place (new a sk) + n) (2 ^ 32), at.next_size-fits sk a v m)

  grow_loop-Gives :
      (supply : List ℕ) (sk : Sack)
      → IsSack low sk
      → IsSupply supply
      → Gives low R n [] (grow_loop place next_size n supply sk)
  unfolding grow_loop sack_create
  grow_loop-Gives [] sk v s = none-Gives [] [] tt tt
  grow_loop-Gives (a ∷ supply) sk v s =
      let room : has_room place next_size n (new a sk) ≡ true =
        ground (arith, end_below a sk v s.0) in
      elim (Bool-cases (leb sack_max_size (next_size sk))) [
        | inl e ↦ rw (grow_loop, e) (none-Gives [] (a ∷ supply) tt s)
        | inr e ↦
            rw (grow_loop, e, room)
              (of_new (new a sk) _ (
                taken-Gives (new a sk) [] supply (new-IsSack a sk v s.0 (ground (arith, e)), tt) s.1
                  (at.next_size-fits sk a v s.0)))
      ]

  go_on-Gives :
      (sk : Sack) (sks : List Sack) (supply : List ℕ) (rest : Given)
      → IsSack low sk
      → IsSupply supply
      → Gives low R n sks rest
      → Gives low R n sks (go_on place next_size n sk sks supply rest)
  go_on-Gives sk [] supply rest v s o = grow_loop-Gives supply sk v s
  go_on-Gives sk (_ ∷ _) supply rest v s o = o

  pub chain_loop-Gives :
      (sks : List Sack) (supply : List ℕ)
      → IsChain low sks
      → IsSupply supply
      → Gives low R n sks (chain_loop place next_size n sks supply)
  unfolding chain_loop
  chain_loop-Gives [] supply v s = none-Gives [] supply tt s
  chain_loop-Gives (sk ∷ sks) supply v s = elim (Bool-cases (has_room place next_size n sk)) [
    | inl e ↦ rw e (taken-Gives sk sks supply v s (ground (arith, e, end_whole sk v.0)))
    | inr e ↦ rw e (
        behind-Gives sk sks _ v.0
          (go_on-Gives sk sks supply _ v.0 s (chain_loop-Gives sks supply v.1 s)))
  ]
