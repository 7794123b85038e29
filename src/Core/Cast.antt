-- ===== src/Core/Cast.antt =====
-- nft_core_cast: an object is of the classes that its class begins with.
use nifty.Base.{
  ℕ, ◌≡◌, ◌≢◌, ◌⊎◌, inl, inr, refl, true, some, Option-cases, Bool-cases, [], ◌∷◌, ◌++◌, ◌==◌,
  arith, ap, ap₂, ◌∙◌, sym,
}
use nifty.Core.{Class, Objects, is_prefix, core_cast}

-- The loop finds a string that goes on after the required one.
is_prefix_sound :
    (require inquire : Class)
    → is_prefix require inquire ≡ true
    → (rest : Class) × (inquire ≡ require ++ rest)
unfolding is_prefix
is_prefix_sound [] inquire e = (inquire, refl)
is_prefix_sound (c ∷ require) [] e = ground arith
is_prefix_sound (c ∷ require) (d ∷ inquire) e = elim (Bool-cases (c == d)) [
  | inr other ↦ ground (arith, other, e)
  | inl same ↦
      let (rest, f) = is_prefix_sound require inquire (ground (arith, same, e)) in
      (rest, ap₂ (λ (x : ℕ) (xs : Class). x ∷ xs) (ground (arith, same)) f)
]

is_prefix-append : (require rest : Class) → is_prefix require (require ++ rest) ≡ true
unfolding is_prefix
is_prefix-append [] rest = refl
is_prefix-append (c ∷ require) rest = ground (arith, is_prefix-append require rest)

-- An object is of a class if the name of its own class begins with that of the other.
abbrev pub IsA : Objects → ℕ → Class → Type 0
IsA s object require = (rest : Class) × (s.class object ≡ some (require ++ rest))

-- The cast of an object that is not NULL returns the object if it is of the class.
pub cast-IsA :
    (s : Objects) (object : ℕ) (require : Class)
    → object ≢ 0
    → IsA s object require
    → core_cast s object (some require) ≡ object
unfolding core_cast
cast-IsA s object require some' (rest, e) = ground (arith, e, is_prefix-append require rest)

cast_cases :
    (s : Objects) (object : ℕ) (require : Class)
    → (core_cast s object (some require) ≡ 0)
      ⊎ ((core_cast s object (some require) ≡ object) × (IsA s object require))
unfolding core_cast
cast_cases s object require = elim (Bool-cases (object == 0)) [
  | inl e ↦ rw e (inl refl)
  | inr e ↦ elim (Option-cases (s.class object)) [
    | inl f ↦ rw (e, f) (inl refl)
    | inr (inquire, f) ↦ elim (Bool-cases (is_prefix require inquire)) [
      | inr g ↦ rw (e, f, g) (inl refl)
      | inl g ↦
          let (rest, h) = is_prefix_sound require inquire g in
          inr (rw (e, f, g) refl, (rest, f ∙ ap (λ (k : Class). some k) h))
    ]
  ]
]

-- A cast of an object that is not NULL returns the object if its class begins with the required
-- one, and NULL if it does not.
pub core_cast_lem :
    (s : Objects) (object : ℕ) (require : Class)
    → object ≢ 0
    → ((core_cast s object (some require) ≡ object) × (IsA s object require))
      ⊎ ((core_cast s object (some require) ≡ 0) × ¬ IsA s object require)
core_cast_lem s object require some' = elim (cast_cases s object require) [
  | inr found ↦ inl found
  | inl e ↦ inr (e, λ a. some' (sym (cast-IsA s object require some' a) ∙ e))
]
