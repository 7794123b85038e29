-- ===== src/Rbtree/Rotate.antt =====
-- rotate: what it writes, node by node.
use nifty.Base.{ℕ, ◌<◌, ◌≡◌, ◌≢◌, ◌∙◌, ◌==◌, if◌then◌else◌, arith}
use nifty.Rbtree.{
  Side, left, right, other, Node, Nodes, child, with_child, set_node, set_child, set_parent,
  root_of, promote, rotate, side_of,
}

-- The places of a rotation: the grandson, the son, the grandson's inner child and the parent.
pub record ArePlaces (g s b n : ℕ) : Type 0 where
  pub sg : s ≢ g
  pub bs : b ≢ s
  pub bg : b ≢ g
  pub ng : n ≢ g
  pub ns : n ≢ s
  pub bn : 0 < n → b ≢ n
  pub g0 : 0 < g
  pub s0 : 0 < s

-- One node holds the key and the data of another.
abbrev pub IsSame : Node → Node → Type 0
IsSame n n' = (n'.key ≡ n.key) × (n'.value ≡ n.value)

-- The writes to a link change nothing else.
pub record IsLinked (nodes nodes' : Nodes) : Type 0 where
  pub contents : (j : ℕ) → IsSame (nodes j) (nodes' j)
  pub colours : (j : ℕ) → (nodes' j).red ≡ (nodes j).red

pub IsLinked-trans : {a b c : Nodes} → IsLinked a b → IsLinked b c → IsLinked a c
IsLinked-trans f g = record {
  contents = λ j. ((g.contents j).0 ∙ (f.contents j).0, (g.contents j).1 ∙ (f.contents j).1);
  colours = λ j. g.colours j ∙ f.colours j;
}

pub set_child-IsLinked :
    (nodes : Nodes) (i : ℕ) (w : Side) (c : ℕ) → IsLinked nodes (set_child nodes i w c)
set_child-IsLinked nodes i left c = record {
  contents = λ j. ground arith;
  colours = λ j. ground arith;
}
set_child-IsLinked nodes i right c = record {
  contents = λ j. ground arith;
  colours = λ j. ground arith;
}

pub set_parent-IsLinked : (nodes : Nodes) (i c : ℕ) → IsLinked nodes (set_parent nodes i c)
set_parent-IsLinked nodes i c = record { contents = λ j. ground arith; colours = λ j. ground arith }

promote_steps :
    (nodes : Nodes) (s g : ℕ) (w : Side) (b c : ℕ)
    → IsLinked nodes
        (set_parent (set_child (set_parent (set_child nodes s w b) c s) g (other w) s) s g)
promote_steps nodes s g w b c =
    let nodes₁ = set_child nodes s w b in
    let nodes₂ = set_parent nodes₁ c s in
    let nodes₃ = set_child nodes₂ g (other w) s in
    IsLinked-trans (set_child-IsLinked nodes s w b) (
      IsLinked-trans (set_parent-IsLinked nodes₁ c s)
        (IsLinked-trans (set_child-IsLinked nodes₂ g (other w) s) (set_parent-IsLinked nodes₃ s g)))

promote-IsLinked : (nodes : Nodes) (s g : ℕ) (w : Side) → IsLinked nodes (promote nodes s g w)
unfolding promote
promote-IsLinked nodes s g w =
    promote_steps nodes s g w (child (nodes g) (other w))
      (child (set_child nodes s w (child (nodes g) (other w)) g) (other w))

promote_at :
    (nodes : Nodes) (s g : ℕ) (w : Side) (j : ℕ)
    → s ≢ g
    → child (nodes g) (other w) ≢ s
    → child (nodes g) (other w) ≢ g
    → promote nodes s g w j ≡ (
        if j == s
        then record (with_child (nodes s) w (child (nodes g) (other w))) { parent = g }
        else if j == g
        then with_child (nodes g) (other w) s
        else if j == child (nodes g) (other w)
        then record (nodes (child (nodes g) (other w))) { parent = s }
        else nodes j)
unfolding promote
promote_at nodes s g left j sg bs bg = ground arith
promote_at nodes s g right j sg bs bg = ground arith

-- What rotate makes of the array, where `w` is the side of the grandson, `v` that of the son.
pub record IsRotated (nodes nodes' : Nodes) (g s b n : ℕ) (w v : Side) : Type 0 where
  pub grandson : nodes' g ≡ record (with_child (nodes g) (other w) s) { parent = n }
  pub son : nodes' s ≡ record (with_child (nodes s) w b) { parent = g }
  pub inner : 0 < b → nodes' b ≡ record (nodes b) { parent = s }
  pub parent : 0 < n → nodes' n ≡ with_child (nodes n) v g
  pub rest : (j : ℕ) → j ≢ g → j ≢ s → j ≢ b → j ≢ n → nodes' j ≡ nodes j
  pub root : root_of nodes' ≡ (if n == 0 then g else root_of nodes)
  pub same : IsLinked nodes nodes'
  pub sentinel : 0 < b → (nodes' 0).parent ≡ (nodes 0).parent

-- Once the sides are found, it is two writes to what `promote` has made.
abbrev linked : Nodes → ℕ → ℕ → Side → Nodes
linked nodes n g v =
    let nodes' = set_node nodes n (with_child (nodes n) v g) in
    set_node nodes' g (record (nodes' g) { parent = n })

root-linked :
    (nodes : Nodes) (n s g : ℕ) (w v : Side)
    → ArePlaces g s (child (nodes g) (other w)) n
    → (n ≡ 0 → v ≡ left)
    → root_of (linked (promote nodes s g w) n g v) ≡ (if n == 0 then g else root_of nodes)
root-linked nodes n s g w left a z =
    let at = promote_at nodes s g w 0 a.sg a.bs a.bg in ground (arith, at, a.s0, a.g0, a.ng)
root-linked nodes n s g w right a z =
    let at = promote_at nodes s g w 0 a.sg a.bs a.bg in ground (arith, at, a.s0, a.g0, a.ng, z)

-- The parent of the sentinel changes only where the sentinel is the inner child.
nil-linked :
    (nodes : Nodes) (n s g : ℕ) (w v : Side)
    → ArePlaces g s (child (nodes g) (other w)) n
    → 0 < child (nodes g) (other w)
    → (linked (promote nodes s g w) n g v 0).parent ≡ (nodes 0).parent
nil-linked nodes n s g w left a h =
    let at = promote_at nodes s g w 0 a.sg a.bs a.bg in ground (arith, at, a.s0, a.g0, a.ng)
nil-linked nodes n s g w right a h =
    let at = promote_at nodes s g w 0 a.sg a.bs a.bg in ground (arith, at, a.s0, a.g0, a.ng)

linked-IsRotated :
    (nodes : Nodes) (n s g : ℕ) (w v : Side)
    → ArePlaces g s (child (nodes g) (other w)) n
    → (n ≡ 0 → v ≡ left)
    → IsRotated nodes (linked (promote nodes s g w) n g v) g s (child (nodes g) (other w)) n w v
linked-IsRotated nodes n s g w v a z =
    let at = λ (j : ℕ). promote_at nodes s g w j a.sg a.bs a.bg in
    let nodes' = promote nodes s g w in
    let linked-IsLinked : IsLinked nodes (linked nodes' n g v) =
      IsLinked-trans (promote-IsLinked nodes s g w) (
        IsLinked-trans (set_child-IsLinked nodes' n v g)
          (set_parent-IsLinked (set_child nodes' n v g) g n)) in
    record {
      grandson = ground (arith, at g, a.sg, a.bg, a.ng);
      son = ground (arith, at s, a.sg, a.ns);
      inner = λ h. ground (arith, at (child (nodes g) (other w)), a.bs, a.bg, a.bn);
      parent = λ h. ground (arith, at n, a.ng, a.ns, a.bn);
      rest = λ j jg js jb jn. ground (arith, at j);
      root = root-linked nodes n s g w v a z;
      same = linked-IsLinked;
      sentinel = λ h. nil-linked nodes n s g w v a h;
    }

rotate_at :
    (nodes : Nodes) (n s g : ℕ) (w v : Side)
    → ArePlaces g s (child (nodes g) (other w)) n
    → side_of (g == (nodes s).left) ≡ w
    → side_of (s == (nodes n).left) ≡ v
    → (n ≡ 0 → v ≡ left)
    → IsRotated nodes (rotate nodes n s g) g s (child (nodes g) (other w)) n w v
unfolding rotate
rotate_at nodes n s g w v a e f z =
    let at = promote_at nodes s g w n a.sg a.bs a.bg in
    let kept : (promote nodes s g w n).left ≡ (nodes n).left = ground (arith, at, a.ns, a.ng) in
    let side : side_of (s == (promote nodes s g w n).left) ≡ v = rw kept f in
    rw (e, side) (linked-IsRotated nodes n s g w v a z)

pub rotate_lem :
    (nodes : Nodes) (n s g b : ℕ) (w v : Side)
    → child (nodes g) (other w) ≡ b
    → ArePlaces g s b n
    → side_of (g == (nodes s).left) ≡ w
    → side_of (s == (nodes n).left) ≡ v
    → (n ≡ 0 → v ≡ left)
    → IsRotated nodes (rotate nodes n s g) g s b n w v
rotate_lem nodes n s g b w v eb a e f z =
    let a' : ArePlaces g s (child (nodes g) (other w)) n = rw eb a in
    rw (← eb) (rotate_at nodes n s g w v a' e f z)
