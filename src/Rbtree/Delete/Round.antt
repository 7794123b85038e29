-- ===== src/Rbtree/Delete/Round.antt =====
-- delete_fixup: one round of the loop.
use nifty.Base.{
  ℕ, suc, ◌≤◌, ◌≡◌, ◌∙◌, ◌⊎◌, inl, inr, refl, sym, Bool, true, false, not, ◌&&◌, List, Bool-cases,
}
use nifty.Rbtree.{Side, left, right, other, Nodes, child, set_red, root_of, rotate}
use nifty.Rbtree.Shape.{
  Tree, leaf, node, top, Rim, rim, height, IsTree, fork, IsFork, IsTree-fork, top-fork,
}
use nifty.Rbtree.Colour.{
  IsBalanced, IsBalancedRim, is_red_above, IsBalanced-weaken, IsSameContent, IsSameContent-trans,
  set_red-IsSameContent,
}
use nifty.Rbtree.Fixup.{AreApart}
use nifty.Rbtree.Delete.{
  Progress, again, done, lift_sibling, lift_nephew, lift_last, fixup_nephews, fixup_beside,
}
use nifty.Rbtree.Delete.Moves.{IsAt}
use nifty.Rbtree.Delete.Sibling.{IsShort, IsBeside, lift_sibling_lem}
use nifty.Rbtree.Delete.Nephews.{
  black-IsBalanced, over, above-IsBalancedRim, to_sibling, reddened-IsShort,
}
use nifty.Rbtree.Delete.Ending.{
  IsMended, lift_last_lem, lifted_nephew, lifted_nephew_content, lift_nephew_eq, lift_nephew_none,
}

abbrev pub IsRed : Tree → Type 0
IsRed leaf = ⊥
IsRed (node c l i r) = c ≡ true

and_swap : (x y : Bool) → (not y && not x) ≡ (not x && not y)
and_swap true true = refl
and_swap true false = refl
and_swap false true = refl
and_swap false false = refl

module _ (xs : List ℕ) (apart : AreApart xs) (p n : ℕ) (z : Rim) (c : Bool)
    (br : IsBalancedRim (suc (over c n)) z) (red : c ≡ true → is_red_above z ≡ false) where
  -- The red nephew on the far side, found by its colour.
  last_lem :
      (nodes : Nodes) (v : Side) (w : ℕ) (t a b : Tree)
      → IsAt xs nodes (rim (other v) c p t z) (fork v false w a b)
      → IsTree nodes w b
      → (nodes (top b)).red ≡ true
      → IsBalanced false n t
      → IsBalanced false n a
      → IsBalanced false n b
      → IsMended xs nodes (lift_last nodes p (other v))
  last_lem nodes v w t a leaf at h e bt ba bb = cc (e, at.nil)
  last_lem nodes v w t a (node false l y r) at h e bt ba bb = cc (e, h.1.red)
  last_lem nodes left w t a (node true l y r) at h e bt ba bb =
      lift_last_lem xs apart nodes left c p w y n t a l r z at bt ba bb.1 bb.2 br red
  last_lem nodes right w t a (node true l y r) at h e bt ba bb =
      lift_last_lem xs apart nodes right c p w y n t a r l z at bt ba bb.2 bb.1 br red

  IsMended-after : {a b d : Nodes} → IsSameContent a b → IsMended xs b d → IsMended xs a d
  IsMended-after s m = record {
    rest = m.rest;
    count = m.count;
    tree = m.tree;
    at = m.at;
    balanced = m.balanced;
    rim = m.rim;
    content = IsSameContent-trans s m.content;
  }

  inner_nephew :
      (nodes : Nodes) (v : Side) (w q : ℕ) (t a₁ a₂ b : Tree)
      → IsAt xs nodes (rim (other v) c p t z) (fork v false w (fork v true q a₁ a₂) b)
      → IsTree nodes w b
      → (nodes (top b)).red ≡ false
      → IsBalanced false n t
      → IsBalanced true n a₁
      → IsBalanced true n a₂
      → IsBalanced false n b
      → IsMended xs nodes (lift_last (lift_nephew nodes p (other v)) p (other v))
  inner_nephew nodes v w q t a₁ a₂ b at h e bt ba₁ ba₂ bb =
      let dyed = set_red (set_red nodes q false) w true in
      rw (lift_nephew_eq xs apart nodes v c p w q t a₁ a₂ b z at e) (
        IsMended-after (lifted_nephew_content xs apart nodes v c p w q t a₁ a₂ b z at e) (
          lift_last_lem xs apart (rotate dyed p w q) v c p q w n t a₁ a₂ b z
            (lifted_nephew xs apart nodes v c p w q t a₁ a₂ b z at e) bt
            (IsBalanced-weaken n a₁ ba₁) ba₂ (black-IsBalanced nodes w n b h e bb) br red))

  near_lem :
      (nodes : Nodes) (v : Side) (w : ℕ) (t a b : Tree)
      → IsAt xs nodes (rim (other v) c p t z) (fork v false w a b)
      → IsTree nodes w a
      → IsTree nodes w b
      → (nodes (top a)).red ≡ true
      → (nodes (top b)).red ≡ false
      → IsBalanced false n t
      → IsBalanced false n a
      → IsBalanced false n b
      → IsMended xs nodes (lift_last (lift_nephew nodes p (other v)) p (other v))
  near_lem nodes v w t leaf b at ha h ea e bt ba bb = cc (ea, at.nil)
  near_lem nodes v w t (node false l q r) b at ha h ea e bt ba bb = cc (ea, ha.1.red)
  near_lem nodes left w t (node true l q r) b at ha h ea e bt ba bb =
      inner_nephew nodes left w q t l r b at h e bt ba.1 ba.2 bb
  near_lem nodes right w t (node true l q r) b at ha h ea e bt ba bb =
      inner_nephew nodes right w q t r l b at h e bt ba.2 ba.1 bb

-- What a round leaves: the loop goes on from the parent, or the tree is balanced again.
pub record GoesOn (xs : List ℕ) (nodes nodes' : Nodes) (x m : ℕ) : Type 0 where
  pub rest : Rim
  pub count : ℕ
  pub tree : Tree
  pub short : IsShort xs nodes' rest count tree
  pub here : x ≡ top tree
  pub nearer : (IsRed tree) ⊎ (height rest ≤ m)
  pub content : IsSameContent nodes nodes'

abbrev pub Outcome : List ℕ → Nodes → ℕ → Progress → Type 0
Outcome xs nodes m (again nodes' x) = GoesOn xs nodes nodes' x m
Outcome xs nodes m (done nodes' x) = IsMended xs nodes nodes' × (x ≡ root_of nodes')

colour_test :
    (nodes : Nodes) (p : ℕ) (v : Side) (w : ℕ) (a b : Tree) (x y : Bool)
    → IsFork nodes p v false w a b
    → (nodes (top a)).red ≡ x
    → (nodes (top b)).red ≡ y
    → (not (nodes (nodes w).left).red && not (nodes (nodes w).right).red) ≡ (not x && not y)
colour_test nodes p left w a b x y f e g = rw (f.node.near, f.node.far, e, g)
colour_test nodes p right w a b x y f e g = rw (f.node.near, f.node.far, e, g) (and_swap x y)

not_both : (x : Bool) → (not x && not true) ≡ false
not_both true = refl
not_both false = refl

IsRed-fork : (v : Side) (p : ℕ) (t s : Tree) (c : Bool) → c ≡ true → IsRed (fork v c p t s)
IsRed-fork left p t s c e = e
IsRed-fork right p t s c e = e

red_above :
    (v : Side) (c : Bool) (n p : ℕ) (s : Tree) (z : Rim)
    → IsBalancedRim (suc n) (rim v c p s z)
    → c ≡ true
    → is_red_above z ≡ false
red_above v true n p s z b e = b.1
red_above v false n p s z b e = cc (e)

nephews_lem :
    (xs : List ℕ) (apart : AreApart xs) (nodes nodes' : Nodes) (v : Side) (p n m : ℕ) (t : Tree)
    (o : IsBeside xs nodes nodes' v p n t m)
    → IsBalanced true n t
    → Outcome xs nodes m (fixup_nephews nodes' p (other v))
unfolding fixup_nephews
nephews_lem xs apart nodes nodes' v p n m t o bt =
    let w = o.sibling in
    let z = o.rest in
    let c = o.colour in
    let at = to_sibling xs nodes' v c p t (fork v false w o.near o.far) z o.short.at in
    let f = IsTree-fork nodes' p v false w o.near o.far at.tree in
    let there : child (nodes' p) (other v) ≡ w = at.rim.1.near ∙ top-fork v false w o.near o.far in
    let test = colour_test nodes' p v w o.near o.far in
    let br = above-IsBalancedRim v c n p (fork v false w o.near o.far) z o.short.balanced in
    let red = red_above v c n p (fork v false w o.near o.far) z o.short.balanced in
    let tt' = IsBalanced-weaken n t bt in
    elim (Bool-cases (nodes' (top o.far)).red) [
      | inl e ↦
          let kept = lift_nephew_none xs nodes' v c p w t o.near o.far z at e in
          let last =
            last_lem xs apart p n z c br red nodes' v w t o.near o.far at f.far e tt'
              o.near_balanced o.far_balanced in
          let x = (nodes' (top o.near)).red in
          rw (there, test x true f refl e ∙ not_both x, kept)
            (IsMended-after xs apart p n z c br red o.content last, refl)
      | inr e ↦ elim (Bool-cases (nodes' (top o.near)).red) [
        | inl g ↦
            let last =
              near_lem xs apart p n z c br red nodes' v w t o.near o.far at f.near f.far g e tt'
                o.near_balanced o.far_balanced in
            rw (there, test true false f g e)
              (IsMended-after xs apart p n z c br red o.content last, refl)
        | inr g ↦
            rw (there, test false false f g e)
              (record {
                rest = z;
                count = over c n;
                tree = fork v c p t (fork v true w o.near o.far);
                short =
                    reddened-IsShort xs apart nodes' v c p w n t o.near o.far z o.short bt
                      (black-IsBalanced nodes' w n o.near f.near g o.near_balanced)
                      (black-IsBalanced nodes' w n o.far f.far e o.far_balanced);
                here = sym (top-fork v c p t (fork v true w o.near o.far));
                nearer = elim o.nearer [
                  | inl r ↦ inl (IsRed-fork v p t (fork v true w o.near o.far) c r)
                  | inr le ↦ inr le
                ];
                content = IsSameContent-trans o.content (set_red-IsSameContent nodes' w true);
              })
      ]
    ]

pub fixup_beside_lem :
    (xs : List ℕ) (apart : AreApart xs) (nodes : Nodes) (v : Side) (c : Bool) (p n : ℕ) (t s : Tree)
    (z : Rim)
    → IsShort xs nodes (rim v c p s z) n t
    → IsBalanced true n t
    → Outcome xs nodes (height z) (fixup_beside nodes p (other v))
unfolding fixup_beside
fixup_beside_lem xs apart nodes v c p n t s z d bt =
    nephews_lem xs apart nodes (lift_sibling nodes p (other v)) v p n (height z) t
      (lift_sibling_lem xs apart nodes v c p n t s z d) bt
