-- ===== src/Rbtree/Turn.antt =====
-- rotate on the tree: the grandson comes up, with the order of the nodes kept.
use nifty.Base.{ℕ, zero, suc, ◌+◌, ◌≤◌, ◌<◌, ◌≡◌, ◌≢◌, refl, sym, ap, Bool, ◌==◌, arith}
use mathlib.Core.List.{append_assoc}
use nifty.Rbtree.{Side, left, right, other, Node, Nodes, with_child, rotate, side_of}
use nifty.Rbtree.Shape.{
  Tree, top, order, Rim, none, rim, above, around, side, one_if, one_if_self, one_if_eq, in_tree,
  in_rim, IsNode, IsRim, IsTree-frame, IsTree-adopt, IsRim-hang, fork, IsFork, fork-IsTree,
  top-fork, ne_top, ne_above, above-in_rim,
}
use nifty.Rbtree.Rotate.{ArePlaces, IsLinked, IsRotated, rotate_lem}

-- The order of the nodes does not tell which of the two is above.
pub around-turn :
    (w : Side) (c c' e e' : Bool) (g s : ℕ) (a b t : Tree) (z : Rim)
    → around (rim w c s t z) (order (fork w c' g a b))
      ≡ around z (order (fork w e' g a (fork w e s b t)))
around-turn left c c' e e' g s a b t z = ap (around z) (simp append_assoc)
around-turn right c c' e e' g s a b t z = ap (around z) (simp append_assoc)

pub son_side :
    (nodes : Nodes) (w : Side) (c : Bool) (g s p : ℕ) (t : Tree)
    → IsNode (nodes s) p c w g (top t)
    → 0 < g
    → in_tree g t ≡ 0
    → side_of (g == (nodes s).left) ≡ w
son_side nodes left c g s p t n h e = ground (arith, n.near)
son_side nodes right c g s p t n h e = ground (arith, n.far, ne_top g t h e)

pub rim_side :
    (nodes : Nodes) (s : ℕ) (z : Rim)
    → IsRim nodes s z
    → 0 < s
    → in_rim s z ≡ 0
    → side_of (s == (nodes (above z)).left) ≡ side z
rim_side nodes s none r h e = ground (arith, r)
rim_side nodes s (rim w c i t z) r h e = son_side nodes w c s i (above z) t r.1 h (omega arith)

pub side_root : (nodes : Nodes) (s : ℕ) (z : Rim) → IsRim nodes s z → above z ≡ 0 → side z ≡ left
side_root nodes s none r e = refl
side_root nodes s (rim w c i t z) r e = absurd (omega (arith, r.0))

-- What a write to the array makes of the grandson and of the son.
grandson-IsNode :
    {n : Node} {p : ℕ} {c : Bool} (w : Side) {x y : ℕ} (s q : ℕ)
    → IsNode n p c w x y
    → IsNode (record (with_child n (other w) s) { parent = q }) q c w x s
grandson-IsNode left s q n = record { parent = refl; red = n.red; near = n.near; far = refl }
grandson-IsNode right s q n = record { parent = refl; red = n.red; near = n.near; far = refl }

son-IsNode :
    {n : Node} {p : ℕ} {c : Bool} (w : Side) {x y : ℕ} (b g : ℕ)
    → IsNode n p c w x y
    → IsNode (record (with_child n w b) { parent = g }) g c w b y
son-IsNode left b g n = record { parent = refl; red = n.red; near = refl; far = n.far }
son-IsNode right b g n = record { parent = refl; red = n.red; near = refl; far = n.far }

module _ (nodes : Nodes) (w : Side) (c c' : Bool) (g s : ℕ) (a b t : Tree) (z : Rim)
    (f : IsFork nodes s w c' g a b) (r : IsRim nodes g (rim w c s t z))
    (d : (j : ℕ)
      → in_tree j a + one_if j g + in_tree j b + (in_tree j t + one_if j s + in_rim j z) ≤ 1)
    (d₀ : in_tree 0 a + one_if 0 g + in_tree 0 b + (in_tree 0 t + one_if 0 s + in_rim 0 z)
      ≡ 0) where
  turn-ArePlaces : ArePlaces g s (top b) (above z)
  turn-ArePlaces = record {
    sg = λ e. omega (arith, d s, one_if_eq s g e, one_if_self s);
    bs = λ e. ne_top s b r.0 (omega (arith, d s, one_if_self s)) (sym e);
    bg = λ e. ne_top g b f.positive (omega (arith, d g, one_if_self g)) (sym e);
    ng = λ e. ne_above g z f.positive (omega (arith, d g, one_if_self g)) (sym e);
    ns = λ e. ne_above s z r.0 (omega (arith, d s, one_if_self s)) (sym e);
    bn = λ h e. ne_top (above z) b h (omega (arith, d (above z), above-in_rim z h)) (sym e);
    g0 = f.positive;
    s0 = r.0;
  }

  turn-IsRotated : IsRotated nodes (rotate nodes (above z) s g) g s (top b) (above z) w (side z)
  turn-IsRotated =
      rotate_lem nodes (above z) s g (top b) w (side z) f.node.far turn-ArePlaces
        (son_side nodes w c g s (above z) t r.1 f.positive (omega (arith, d g, one_if_self g)))
        (rim_side nodes s z r.3 r.0 (omega (arith, d s, one_if_self s))) (side_root nodes s z r.3)

  turn_pos :
      (j : ℕ)
      → 0 < in_tree j a + one_if j g + in_tree j b + (in_tree j t + one_if j s + in_rim j z)
      → 0 < j
  turn_pos zero h = omega (arith, d₀)
  turn_pos (suc j) h = omega arith

  turn_kept :
      (j : ℕ)
      → 0 < in_tree j a + in_tree j b + in_tree j t + in_rim j z
      → j ≢ top b
      → j ≢ above z
      → rotate nodes (above z) s g j ≡ nodes j
  turn_kept j h eb ez =
      turn-IsRotated.rest j (λ e. omega (arith, d j, one_if_eq j g e))
        (λ e. omega (arith, d j, one_if_eq j s e)) eb ez

  -- The subtrees that only move.
  turn_outer : (j : ℕ) → 0 < in_tree j a + in_tree j t → rotate nodes (above z) s g j ≡ nodes j
  turn_outer j h =
      turn_kept j (omega arith) (ne_top j b (turn_pos j (omega arith)) (omega (arith, d j)))
        (ne_above j z (turn_pos j (omega arith)) (omega (arith, d j)))

  turn_inner : (j : ℕ) → 0 < in_tree j b → j ≢ top b → rotate nodes (above z) s g j ≡ nodes j
  turn_inner j h e =
      turn_kept j (omega arith) e (ne_above j z (turn_pos j (omega arith)) (omega (arith, d j)))

  turn_rim : (j : ℕ) → 0 < in_rim j z → j ≢ above z → rotate nodes (above z) s g j ≡ nodes j
  turn_rim j h e =
      turn_kept j (omega arith) (ne_top j b (turn_pos j (omega arith)) (omega (arith, d j))) e

  turn-son : IsFork (rotate nodes (above z) s g) g w c s b t
  turn-son = record {
    positive = r.0;
    node = rw turn-IsRotated.son (son-IsNode w (top b) g r.1);
    near =
        IsTree-adopt nodes (rotate nodes (above z) s g) g s b turn_inner turn-IsRotated.inner
          (λ j. omega (arith, d j)) f.far;
    far =
        IsTree-frame nodes (rotate nodes (above z) s g) s t (λ j h. turn_outer j (omega arith)) r.2;
  }

  pub turn-IsFork : IsFork (rotate nodes (above z) s g) (above z) w c' g a (fork w c s b t)
  turn-IsFork = record {
    positive = f.positive;
    node = rw (turn-IsRotated.grandson, top-fork w c s b t) (grandson-IsNode w s (above z) f.node);
    near =
        IsTree-frame nodes (rotate nodes (above z) s g) g a (λ j h. turn_outer j (omega arith))
          f.near;
    far = fork-IsTree w turn-son;
  }

  pub turn-IsRim : IsRim (rotate nodes (above z) s g) g z
  turn-IsRim =
      IsRim-hang nodes (rotate nodes (above z) s g) s g z turn_rim turn-IsRotated.parent
        turn-IsRotated.root (λ j. omega (arith, d j)) r.3

  pub turn-IsLinked : IsLinked nodes (rotate nodes (above z) s g)
  turn-IsLinked = turn-IsRotated.same

  pub turn_sentinel : 0 < top b → ((rotate nodes (above z) s g) 0).parent ≡ (nodes 0).parent
  turn_sentinel h = turn-IsRotated.sentinel h
