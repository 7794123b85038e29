-- ===== src/Queue/Deque.antt =====
-- What a queue promises: a list of items with an optional limit, put in at either end and taken
-- from the front, until it is shut down.
use nifty.Base.{
  ℕ, ◌≡◌, Bool, false, List, [], ◌∷◌, ◌++◌, ◌&&◌, ◌⊎◌, ltb, leb, if◌then◌else◌, Status, ok, enomem,
  etimedout, eshutdown, length,
}
use nifty.Queue.{Which, char_l, char_f}

-- 'L' puts the item behind the others, 'F' before them.
abbrev pub put : Which → ℕ → List ℕ → List ℕ
put char_l x xs = xs ++ (x ∷ [])
put char_f x xs = x ∷ xs

pub data Op : Type 0 where
  enq : ℕ → Which → Op
  deq : Op

module _ (stopped : Bool) (limit : ℕ) where
  abbrev pub enqueue : List ℕ → ℕ → Which → Status × List ℕ
  enqueue xs x w =
      if stopped
      then (eshutdown, xs)
      else if ltb 0 limit && leb limit (length xs)
      then (etimedout, xs)
      else (ok, put w x xs)

abbrev pub dequeue : Bool → List ℕ → Status × ℕ × List ℕ
dequeue stopped [] = (if stopped then eshutdown else etimedout, 0, [])
dequeue stopped (x ∷ xs) = (ok, x, xs)

-- A reply is the code of a call, and for a dequeue the item.
abbrev pub Reply : Type 0
Reply = Status × ℕ

-- The replies are those of the list, but that an enqueue may run out of memory and change nothing.
abbrev pub Explains : ℕ → List ℕ → List Op → List Reply → Type 0
Explains limit xs [] [] = Unit
Explains limit xs [] (r ∷ rs) = ⊥
Explains limit xs (op ∷ ops) [] = ⊥
Explains limit xs (enq x w ∷ ops) ((c, _) ∷ rs) =
    ((c ≡ enomem) × Explains limit xs ops rs)
    ⊎ ((c ≡ (enqueue false limit xs x w).0) × Explains limit (enqueue false limit xs x w).1 ops rs)
Explains limit xs (deq ∷ ops) ((c, x) ∷ rs) =
    (c ≡ (dequeue false xs).0)
    × (x ≡ (dequeue false xs).1)
    × Explains limit (dequeue false xs).2 ops rs
