-- ===== src/Vector/Tests.antt =====
-- The theorems on vectors at concrete vectors.
use nifty.Base.{
  ℕ, zero, suc, ◌<◌, ◌≡◌, refl, [], ◌∷◌, arith, Alloc, some, ltb, if◌then◌else◌, ◌&&◌, ◌||◌, not,
}
use nifty.Vector.{Vector, at, Sign, below, same, above, vector_index}
use nifty.Vector.Stack.{IsValid, Appended}
use nifty.Vector.Find.{IsOrder, IsSorted}
use nifty.Vector.Sets.{vector_unique, vector_intersection, vector_difference, vector_union}
use nifty.Vector.Sets.Walk.{Increasing, contains}
use nifty.Vector.Sets.Merge.{IsOrdered, IsMerged}
use nifty.Vector.Sets.Intersection.{vector_intersection_lem}
use nifty.Vector.Sets.Difference.{vector_difference_lem}
use nifty.Vector.Sets.Union.{vector_union_lem}
use nifty.Vector.Sets.Unique.{vector_unique_lem}
use nifty.Vector.Sort.{vector_sort}
use nifty.Vector.Sort.Same.{occurs}
use nifty.Vector.Sort.Order.{vector_sort_lem}

-- The order of numbers.
abbrev by_number : ℕ → ℕ → Sign
by_number a b = if ltb a b then below else if ltb b a then above else same

by_number-IsOrder : IsOrder by_number
by_number-IsOrder = record { reverse = λ a b. ground arith; trans = λ a b c p q. ground arith }

-- Two items where there is room for two.
abbrev two_items : Vector
two_items = record { cap = 2; len = 2; vec = 3 ∷ 7 ∷ 0 ∷ [] }

abbrev some_memory : Alloc
some_memory = some λ i. 9

two_items-IsValid : IsValid two_items
two_items-IsValid = record { stored = refl; large = omega arith; fits = omega arith }

abbrev three_items : Vector
three_items = record { cap = 4; len = 3; vec = 3 ∷ 7 ∷ 5 ∷ 0 ∷ 9 ∷ [] }

three_items-Appended : Appended two_items 5 three_items
three_items-Appended = record {
  valid = record { stored = refl; large = omega arith; fits = omega arith };
  len = refl;
  last = refl;
  null = refl;
  same = items;
}
  where
    items : (i : ℕ) → i < 2 → at three_items i ≡ at two_items i
    items zero l = refl
    items (suc zero) l = refl
    items (suc (suc i)) l = absurd (omega arith)

vector_index_test : vector_index by_number two_items 7 ≡ some 1
unfolding vector_index
vector_index_test = refl

-- Three items out of order.
abbrev unsorted : Vector
unsorted = record { cap = 4; len = 3; vec = 7 ∷ 3 ∷ 5 ∷ 0 ∷ 9 ∷ [] }

vector_sort_example :
    let r = vector_sort by_number unsorted in
    IsValid r
    × (r.len ≡ 3)
    × IsSorted by_number by_number-IsOrder r 0 r.len
    × ((x : ℕ) → occurs r.vec x 3 ≡ occurs unsorted.vec x 3)
vector_sort_example =
    vector_sort_lem by_number by_number-IsOrder unsorted
      (record { stored = refl; large = omega arith; fits = omega arith })

-- The sets of 3 and 7, and of 7 and 9.
abbrev other_items : Vector
other_items = record { cap = 2; len = 2; vec = 7 ∷ 9 ∷ 0 ∷ [] }

two_items-IsOrdered : IsOrdered by_number by_number-IsOrder two_items
two_items-IsOrdered = record { valid = two_items-IsValid; increasing = increasing }
  where
    increasing : Increasing by_number by_number-IsOrder two_items.vec 2
    increasing zero (suc zero) l m = refl
    increasing zero zero l m = absurd (omega arith)
    increasing i (suc (suc j)) l m = absurd (omega arith)
    increasing (suc i) zero l m = absurd (omega arith)
    increasing (suc i) (suc zero) l m = absurd (omega arith)

other_items-IsOrdered : IsOrdered by_number by_number-IsOrder other_items
other_items-IsOrdered = record {
  valid = record { stored = refl; large = omega arith; fits = omega arith };
  increasing = increasing;
}
  where
    increasing : Increasing by_number by_number-IsOrder other_items.vec 2
    increasing zero (suc zero) l m = refl
    increasing zero zero l m = absurd (omega arith)
    increasing i (suc (suc j)) l m = absurd (omega arith)
    increasing (suc i) zero l m = absurd (omega arith)
    increasing (suc i) (suc zero) l m = absurd (omega arith)

vector_intersection_example :
    IsMerged by_number by_number-IsOrder two_items other_items
      (λ p q. p && q)
      (vector_intersection by_number two_items other_items)
vector_intersection_example =
    vector_intersection_lem by_number by_number-IsOrder two_items other_items two_items-IsOrdered
      other_items-IsOrdered

vector_difference_example :
    IsMerged by_number by_number-IsOrder two_items other_items
      (λ p q. p && not q)
      (vector_difference by_number two_items other_items)
vector_difference_example =
    vector_difference_lem by_number by_number-IsOrder two_items other_items two_items-IsOrdered
      other_items-IsOrdered

vector_union_example :
    (u : Vector) × (vector_union by_number some_memory two_items other_items ≡ some u)
    × IsMerged by_number by_number-IsOrder two_items other_items (λ p q. p || q) u
vector_union_example =
    vector_union_lem by_number by_number-IsOrder (λ i. 9) two_items other_items two_items-IsOrdered
      other_items-IsOrdered

-- Three items, two of them the same, sorted.
abbrev sorted_items : Vector
sorted_items = vector_sort by_number (record { cap = 4; len = 3; vec = 7 ∷ 3 ∷ 7 ∷ 0 ∷ 9 ∷ [] })

vector_unique_example :
    let r = vector_unique by_number sorted_items in
    IsOrdered by_number by_number-IsOrder r
    × ((x : ℕ)
        → contains by_number r.vec x r.len ≡ contains by_number sorted_items.vec x sorted_items.len)
vector_unique_example =
    let s =
      vector_sort_lem by_number by_number-IsOrder
        (record { cap = 4; len = 3; vec = 7 ∷ 3 ∷ 7 ∷ 0 ∷ 9 ∷ [] })
        (record { stored = refl; large = omega arith; fits = omega arith }) in
    vector_unique_lem by_number by_number-IsOrder sorted_items s.0 s.2
