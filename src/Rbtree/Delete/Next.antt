-- ===== src/Rbtree/Delete/Next.antt =====
-- delete_node: the node that the walk goes on to.
use mathlib.Core.Path.{subst}
use nifty.Base.{
  ℕ, ◌+◌, ◌<◌, ◌≡◌, ◌≢◌, inl, inr, sym, ap, Bool, List, ◌∷◌, length, length-append, arith,
}
use nifty.Rbtree.{Rbtree}
use nifty.Rbtree.Shape.{Tree, node, order, Rim, occurs, one_if, one_if_eq, in_tree, in_rim}
use nifty.Rbtree.Place.{length-around}
use nifty.Rbtree.Fixup.{AreApart, places_count}
use nifty.Rbtree.Valid.{in_use, length_places, counted-AreApart}
use nifty.Rbtree.Read.{node_successor}
use nifty.Rbtree.Read.Walk.{start, next, node_successor_lem}
use nifty.Rbtree.Delete.Locate.{IsFocus}
use nifty.Rbtree.Delete.First.{next_in, start_in}

pub used_lt : (n j a : ℕ) → a ≡ in_use n j → 0 < a → j < n
used_lt n j a e h = ground (arith, e)

-- The node that comes next is another one, or none.
module _ (t : Rbtree) (xs : List ℕ) (counted : (j : ℕ) → occurs j xs ≡ in_use t.next_free j)
    (some : 0 < t.next_free) (c : Bool) (l : Tree) (i : ℕ) (r : Tree) (z : Rim) (n : ℕ)
    (f : IsFocus xs t.nodes z n (node c l i r)) where
  apart : AreApart xs
  apart = counted-AreApart t.next_free xs counted

  pub count : (j : ℕ) → in_tree j l + one_if j i + in_tree j r + in_rim j z ≡ occurs j xs
  count j = places_count xs z (node c l i r) j f.at.places

  pub successor_eq : node_successor t i ≡ start r (next z)
  successor_eq =
      node_successor_lem t i c l r z f.at.tree f.at.rim (λ j. omega (arith, count j, apart.once j))
        (omega (
          arith,
          length-around z (order (node c l i r)),
          length-append (order l) (i ∷ order r),
          ap (length {A = ℕ}) f.at.places,
          length_places t.next_free xs counted,
        ))

  other_place : (j : ℕ) → 0 < in_tree j r + in_rim j z → (j < t.next_free) × (j ≢ i)
  other_place j h = (
    used_lt t.next_free j (occurs j xs) (counted j) (omega (arith, count j, h)),
    λ e. omega (arith, count j, apart.once j, h, one_if_eq j i e),
  )

  none_place : (j : ℕ) → j ≡ 0 → (j < t.next_free) × (j ≢ i)
  none_place j e = (omega (arith, e, some), λ d. omega (arith, e, f.at.tree.0, d))

  pub successor_place : (node_successor t i < t.next_free) × (node_successor t i ≢ i)
  successor_place =
      subst (λ (j : ℕ). (j < t.next_free) × (j ≢ i)) (sym successor_eq)
        (elim (start_in r (next z)) [
          | inr h ↦ other_place (start r (next z)) (omega (arith, h))
          | inl e ↦
              subst (λ (j : ℕ). (j < t.next_free) × (j ≢ i)) (sym e)
                (elim (next_in z) [
                  | inl g ↦ none_place (next z) g
                  | inr h ↦ other_place (next z) (omega (arith, h))
                ])
        ])
