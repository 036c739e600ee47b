-- ===== src/RbTree/Pieces.antt =====
-- The rotations of src/rbtree.rs: the pieces of a tree around the two nodes that change places, through
-- each of the six writes.
use rtsched.Base.{
  ℕ, ◌+◌, ◌≤◌, Ptr, Option, some, List, ◌≡◌, ◌≢◌, ◌∙◌, sym, refl, update, update_self, update_ne,
  arith, subst,
}
use rtsched.RbTree.{
  RbNode, RbTree, Color, Side, left_side, right_side, flip, with_child, set_node, set_parent_of,
  replace_child,
}
use rtsched.RbTree.Shape.{
  Shape, Step, root_of, top, cell, count, count_along, count-root_of, hit, hit_self, Below, Along,
  count-top,
}
use rtsched.RbTree.Frames.{
  Agree, Below-Agree, Along-Agree, Agree-update, Agree-set_parent_of, Agree-replace_child,
  Below-set_parent_of, Along-replace_child, root-set_parent_of,
}

pub far_child-cell :
    (d : Side) (c : Color) (up near far v : Option Ptr)
    → with_child (flip d) v (cell d c up near far) ≡ cell d c up near v
far_child-cell left_side c up near far v = refl
far_child-cell right_side c up near far v = refl

pub parent-cell :
    (d : Side) (c : Color) (up near far v : Option Ptr)
    → record (cell d c up near far) { parent = v } ≡ cell d c v near far
parent-cell left_side c up near far v = refl
parent-cell right_side c up near far v = refl

pub cell-parent :
    (d : Side) (c : Color) (up near far : Option Ptr) → (cell d c up near far).parent ≡ up
cell-parent left_side c up near far = refl
cell-parent right_side c up near far = refl

module _ (x y : Ptr) (a b e : Shape) (ctx : List Step)
    (once : (p : Ptr)
      → count_along p ctx + (hit p x + count p a + (hit p y + count p b + count p e)) ≤ 1) where
  -- The two nodes, the three subtrees and the way from the root, in a store.
  pub record Pieces (t : RbTree) (nx ny : RbNode) (up_b link : Option Ptr) : Type 0 where
    pub at_x : t.nodes x ≡ nx
    pub at_y : t.nodes y ≡ ny
    pub below_a : Below t.nodes (some x) a
    pub below_b : Below t.nodes up_b b
    pub below_e : Below t.nodes (some y) e
    pub along : Along t.nodes t.root ctx link

  distinct : x ≢ y
  distinct i = omega (arith, once x, hit_self x, subst (λ q. hit x q ≡ 1) i (hit_self x))

  pub write_x :
      (t : RbTree) (nx ny n nx' : RbNode) (up_b link : Option Ptr)
      → n ≡ nx'
      → Pieces t nx ny up_b link
      → Pieces (set_node t x n) nx' ny up_b link
  write_x t nx ny n nx' up_b link i v = record {
    at_x = update_self t.nodes x n ∙ i;
    at_y = update_ne t.nodes x n y (λ j. distinct (sym j)) ∙ v.at_y;
    below_a =
        Below-Agree t.nodes (update t.nodes x n) (some x) a
          (Agree-update t.nodes x n (λ p. count p a) (omega (arith, once x, hit_self x))) v.below_a;
    below_b =
        Below-Agree t.nodes (update t.nodes x n) up_b b
          (Agree-update t.nodes x n (λ p. count p b) (omega (arith, once x, hit_self x))) v.below_b;
    below_e =
        Below-Agree t.nodes (update t.nodes x n) (some y) e
          (Agree-update t.nodes x n (λ p. count p e) (omega (arith, once x, hit_self x))) v.below_e;
    along =
        Along-Agree t.nodes (update t.nodes x n) t.root ctx link
          (Agree-update t.nodes x n (λ p. count_along p ctx) (omega (arith, once x, hit_self x)))
          v.along;
  }

  pub write_y :
      (t : RbTree) (nx ny n ny' : RbNode) (up_b link : Option Ptr)
      → n ≡ ny'
      → Pieces t nx ny up_b link
      → Pieces (set_node t y n) nx ny' up_b link
  write_y t nx ny n ny' up_b link i v = record {
    at_x = update_ne t.nodes y n x distinct ∙ v.at_x;
    at_y = update_self t.nodes y n ∙ i;
    below_a =
        Below-Agree t.nodes (update t.nodes y n) (some x) a
          (Agree-update t.nodes y n (λ p. count p a) (omega (arith, once y, hit_self y))) v.below_a;
    below_b =
        Below-Agree t.nodes (update t.nodes y n) up_b b
          (Agree-update t.nodes y n (λ p. count p b) (omega (arith, once y, hit_self y))) v.below_b;
    below_e =
        Below-Agree t.nodes (update t.nodes y n) (some y) e
          (Agree-update t.nodes y n (λ p. count p e) (omega (arith, once y, hit_self y))) v.below_e;
    along =
        Along-Agree t.nodes (update t.nodes y n) t.root ctx link
          (Agree-update t.nodes y n (λ p. count_along p ctx) (omega (arith, once y, hit_self y)))
          v.along;
  }

  -- The middle subtree is given a new parent.
  pub write_b :
      (t : RbTree) (nx ny : RbNode) (up_b link v : Option Ptr)
      → Pieces t nx ny up_b link
      → Pieces (set_parent_of t (root_of b) v) nx ny v link
  write_b t nx ny up_b link v w =
      let h = (set_parent_of t (root_of b) v).nodes in
      let agree : (f : Ptr → ℕ) → ((p : Ptr) → root_of b ≡ some p → f p ≡ 0) → Agree t.nodes h f =
        λ f z. Agree-set_parent_of t (root_of b) v f z in
      record {
        at_x =
            agree (λ p. hit p x) (λ p i. omega (arith, once p, count-root_of b p i)) x
              (omega (arith, hit_self x))
            ∙ w.at_x;
        at_y =
            agree (λ p. hit p y) (λ p i. omega (arith, once p, count-root_of b p i)) y
              (omega (arith, hit_self y))
            ∙ w.at_y;
        below_a =
            Below-Agree t.nodes h (some x) a
              (agree (λ p. count p a) (λ p i. omega (arith, once p, count-root_of b p i)))
              w.below_a;
        below_b = Below-set_parent_of t up_b v b (λ p. omega (arith, once p)) w.below_b;
        below_e =
            Below-Agree t.nodes h (some y) e
              (agree (λ p. count p e) (λ p i. omega (arith, once p, count-root_of b p i)))
              w.below_e;
        along =
            subst (λ r. Along h r ctx link) (root-set_parent_of t (root_of b) v)
              (Along-Agree t.nodes h t.root ctx link
                (agree (λ p. count_along p ctx) (λ p i. omega (arith, once p, count-root_of b p i)))
                w.along);
      }

  -- The link above `x` is written.
  pub write_link :
      (d : Side) (t : RbTree) (nx ny : RbNode) (up_b v : Option Ptr)
      → Pieces t nx ny up_b (some x)
      → Pieces (replace_child d t x (top ctx) v) nx ny up_b v
  write_link d t nx ny up_b v w =
      let h = (replace_child d t x (top ctx) v).nodes in
      let agree : (f : Ptr → ℕ) → ((p : Ptr) → top ctx ≡ some p → f p ≡ 0) → Agree t.nodes h f =
        λ f z. Agree-replace_child d t x (top ctx) v f z in
      record {
        at_x =
            agree (λ p. hit p x) (λ p i. omega (arith, once p, count-top ctx p i)) x
              (omega (arith, hit_self x))
            ∙ w.at_x;
        at_y =
            agree (λ p. hit p y) (λ p i. omega (arith, once p, count-top ctx p i)) y
              (omega (arith, hit_self y))
            ∙ w.at_y;
        below_a =
            Below-Agree t.nodes h (some x) a
              (agree (λ p. count p a) (λ p i. omega (arith, once p, count-top ctx p i))) w.below_a;
        below_b =
            Below-Agree t.nodes h up_b b
              (agree (λ p. count p b) (λ p i. omega (arith, once p, count-top ctx p i))) w.below_b;
        below_e =
            Below-Agree t.nodes h (some y) e
              (agree (λ p. count p e) (λ p i. omega (arith, once p, count-top ctx p i))) w.below_e;
        along =
            Along-replace_child d t x ctx v (λ p. omega (arith, once p))
              (omega (arith, once x, hit_self x)) w.along;
      }
