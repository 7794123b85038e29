-- ===== src/Queue/Store.antt =====
-- What storing and taking an item in the circular array does to the items of the queue.
use native.Mathlib.Nat.{mod-add-mod, mod-eq_of_lt, mod-eq-sub-mod, mod-lt}
use nifty.Base.{
  ℕ, suc, ◌+◌, ◌-◌, ◌%◌, ◌<◌, ◌≡◌, ◌≢◌, ap, ap₂, ◌∙◌, false, none, some, [], ◌∷◌, ◌++◌, arith,
  get_or, set, inl, inr, Option-cases, leb, if◌then◌else◌, get_or-set,
}
use nifty.Queue.{
  Queue, count, is_full, next_index, prev_index, Which, char_l, char_f, store, take_first,
  reset_if_full,
}
use nifty.Queue.Deque.{put}
use nifty.Queue.Valid.{IsValid}
use nifty.Queue.Items.{window, items, window_ext, window_snoc, window-set, window_step, wrap}

-- The facts about the indices of a queue that holds items and is not full.
module _ (q : Queue) (f : ℕ) (v : IsValid q) (e : q.first ≡ some f) (room : q.next ≢ f) where
  count_bounds : (0 < count q) × (count q < q.size) × ((f + count q) % q.size ≡ q.next)
  count_bounds = let hf : f < q.size = ground arith in ground (arith, wrap q.size f (count q) hf)

  -- No item's cell is the one at `next`, nor the one before `first`.
  next_is_free : (i : ℕ) → i < count q → (f + i) % q.size ≢ q.next
  next_is_free i lt =
      let hf : f < q.size = ground arith in
      ground (arith, count_bounds, wrap q.size f i hf, wrap q.size f (count q) hf)

  prev_is_free : (i : ℕ) → i < count q → (f + i) % q.size ≢ prev_index q f
  prev_is_free i lt =
      let hf : f < q.size = ground arith in
      ground (arith, count_bounds, wrap q.size f i hf, wrap q.size f (q.size - 1) hf)

  count_back :
      next_index q q.next + (if leb (next_index q q.next) f then q.size else 0) - f ≡ suc (count q)
  count_back = ground (arith, count_bounds, wrap q.size q.next 1 v.next_fits)

  -- An item stored at `next` goes behind the others.
  window_back :
      (x : ℕ)
      → window (set q.array q.next x) q.size f (suc (count q))
        ≡ window q.array q.size f (count q) ++ (x ∷ [])
  window_back x =
      window_snoc (set q.array q.next x) q.size f (count q)
      ∙ ap₂ (λ l y. l ++ (y ∷ []))
          (window-set q.array q.size f (count q) q.next x (ground arith) next_is_free)
          (ground (arith, count_bounds, get_or-set q.array q.next ((f + count q) % q.size) x 0))

  -- PREV is undone by one step forward.
  step_back : (i : ℕ) → (prev_index q f + 1 + i) % q.size ≡ (f + i) % q.size
  step_back i =
      let p : prev_index q f + 1 + i ≡ prev_index q f + (1 + i) = omega arith in
      let r : f + q.size - 1 + (1 + i) ≡ f + i + q.size = omega (arith, v.large) in
      let t : f + i + q.size - q.size ≡ f + i = omega arith in
      rw p (
        mod-add-mod (f + q.size - 1) q.size (1 + i)
        ∙ (ap (λ k. k % q.size) r
            ∙ (mod-eq-sub-mod {n = f + i + q.size} {m = q.size} (omega arith)
                ∙ ap (λ k. k % q.size) t)))

  window_front :
      (x : ℕ)
      → window (set q.array (prev_index q f) x) q.size (prev_index q f) (suc (count q))
        ≡ x ∷ window q.array q.size f (count q)
  window_front x =
      let p = prev_index q f in
      let hp : p < q.size = mod-lt (f + q.size - 1) (omega (arith, v.large)) in
      ap₂ ◌∷◌ (ground (arith, mod-eq_of_lt hp, get_or-set q.array p (p % q.size) x 0)) (
        window_ext (set q.array p x) q.size (p + 1) (set q.array p x) q.size f (count q)
          (λ i lt. ap (λ k. get_or (set q.array p x) k 0) (step_back i))
        ∙ window-set q.array q.size f (count q) p x (ground arith) prev_is_free)

  count_front :
      q.next + (if leb q.next (prev_index q f) then q.size else 0) - prev_index q f ≡ suc (count q)
  count_front =
      let hf : f < q.size = ground arith in
      ground (arith, count_bounds, wrap q.size f (q.size - 1) hf)

  store_back : (x : ℕ) → items (store q x char_l) ≡ items q ++ (x ∷ [])
  unfolding store
  store_back x = ground (arith, window_back x, count_back)

  -- An item stored before `first` goes in front of the others.
  store_front : (x : ℕ) → items (store q x char_f) ≡ x ∷ items q
  unfolding store
  store_front x = ground (arith, window_front x, count_front)

module _ {q : Queue} where
  store_first :
      (x : ℕ) (w : Which) → IsValid q → q.first ≡ none → items (store q x w) ≡ put w x (items q)
  unfolding store
  store_first x char_l v e = ground (
    arith,
    get_or-set q.array 0 (0 % q.size) x 0,
    mod-eq_of_lt {n = 0} {m = q.size} (omega (arith, v.large)),
  )
  store_first x char_f v e = ground (
    arith,
    get_or-set q.array 0 (0 % q.size) x 0,
    mod-eq_of_lt {n = 0} {m = q.size} (omega (arith, v.large)),
  )

-- Storing in a queue with room puts the item at the end that `which` names.
pub items-store :
    (q : Queue) (x : ℕ) (w : Which)
    → IsValid q
    → is_full q ≡ false
    → items (store q x w) ≡ put w x (items q)
items-store q x w v room = elim (Option-cases q.first) [
  | inl e ↦ store_first x w v e
  | inr (f, e) ↦ stored_behind_or_before w f e
]
  where
    stored_behind_or_before :
        (w : Which) (f : ℕ) → q.first ≡ some f → items (store q x w) ≡ put w x (items q)
    stored_behind_or_before char_l f e = store_back q f v e (ground arith) x
    stored_behind_or_before char_f f e = store_front q f v e (ground arith) x

-- Taking the first item leaves the others.
module _ (q : Queue) (f : ℕ) (v : IsValid q) (e : q.first ≡ some f) where
  count_taken : count (reset_if_full (take_first q f).1) ≡ count q - 1
  unfolding reset_if_full take_first
  count_taken = let hf : f < q.size = ground arith in ground (arith, wrap q.size f 1 hf)

  pub items-take_first : items q ≡ (take_first q f).0 ∷ items (reset_if_full (take_first q f).1)
  unfolding reset_if_full take_first
  items-take_first =
      let hf : f < q.size = ground arith in
      ground (
        arith,
        window_step q.array q.size f (count q),
        count_taken,
        wrap q.size f 1 hf,
        mod-eq_of_lt hf,
      )
