-- ===== src/Core/Create.antt =====
-- nft_core_create: a new object is of its class, and has a handle of its own.
use nifty.Base.{
  ℕ, ◌≡◌, ◌≢◌, ◌⊎◌, inl, inr, refl, Bool, true, false, none, some, ◌==◌, if◌then◌else◌, arith, ◌∙◌,
  sym,
}
use native.Mathlib.Nat.{mod-lt}
use nifty.Handle.{HandleMap, handle_hash, handle_alloc}
use nifty.Handle.Table.{IsValid, IsNew, find}
use nifty.Handle.Alloc.{handle_alloc_lem}
use nifty.Handle.Refs.{found}
use nifty.Core.{Class, Objects, core_create}

-- The object at an address without a handle gets the null handle.
abbrev cleared : HandleMap → ℕ → HandleMap
cleared m o = record m { handle = λ p. if p == o then 0 else m.handle p }

module _ (m : HandleMap) (o : ℕ) (v : IsValid m) (new : IsNew m o) where
  cleared-IsValid : IsValid (cleared m o)
  cleared-IsValid = record {
    stored = v.stored;
    large = v.large;
    homes = λ i l e.
        let home = v.homes i l e in
        let other = new i l e in
        record {
          object = home.object;
          handle = ground (arith, home.handle, other);
          home = ground (arith, home.home, other);
        };
  }

  find-cleared : (k : ℕ) → find (cleared m o) k ≡ find m k
  find-cleared k = ground (arith, new (handle_hash k m.size) (mod-lt k v.large))

-- A new object: it is of its class, its handle led nowhere and leads to it, with one reference, and
-- the other handles lead where they led.
pub record Created (s : Objects) (class : Class) (o : ℕ) (r : Objects) : Type 0 where
  pub valid : IsValid r.map
  pub named : r.class o ≡ some class
  pub fresh : find s.map (r.map.handle o) ≡ none
  pub found : find r.map (r.map.handle o) ≡ some (o, 1)
  pub others : (k : ℕ) → k ≢ r.map.handle o → find r.map k ≡ find s.map k

-- nft_core_create on a valid table, where calloc returns an object that has no handle, either
-- returns NULL, and the handles lead where they led, or it returns the object, which has its class
-- and a handle that led nowhere and leads to it with one reference, and the others lead where they
-- led.
pub core_create_lem :
    (calloc : ℕ) (mem : ℕ → Bool) (s : Objects) (class : Class)
    → calloc ≢ 0
    → IsValid s.map
    → IsNew s.map calloc
    → (((core_create calloc mem s class).0 ≡ 0)
        × IsValid (core_create calloc mem s class).1.map
        × ((k : ℕ) → find (core_create calloc mem s class).1.map k ≡ find s.map k))
      ⊎ (((core_create calloc mem s class).0 ≡ calloc)
          × Created s class calloc (core_create calloc mem s class).1)
unfolding core_create
core_create_lem calloc mem s class some' v new =
    let m = cleared s.map calloc in
    let w = cleared-IsValid s.map calloc v new in
    let got : (calloc == 0) ≡ false = ground arith in
    elim (handle_alloc_lem mem m calloc w some' new) [
      | inl (z, e) ↦
          let failed : ((handle_alloc mem m calloc).0 == 0) ≡ true = ground arith in
          inl (
            rw (got, failed) refl,
            rw (got, failed) e.valid,
            rw (got, failed) (λ k. e.find k ∙ find-cleared s.map calloc v new k),
          )
      | inr a ↦
          let done : ((handle_alloc mem m calloc).0 == 0) ≡ false = ground (arith, a.some') in
          let h = (handle_alloc mem m calloc).0 in
          let r = (handle_alloc mem m calloc).1 in
          let named : r.handle calloc ≡ h = (found r h calloc 1 a.found).handle in
          let old = find-cleared s.map calloc v new in
          inr (
            rw (got, done) refl,
            rw (got, done)
                (record {
                  valid = a.valid;
                  named = ground arith;
                  fresh = rw named (sym (old h) ∙ a.fresh);
                  found = rw named a.found;
                  others = λ k n. a.others k (λ e. n (e ∙ sym named)) ∙ old k;
                }),
          )
    ]
